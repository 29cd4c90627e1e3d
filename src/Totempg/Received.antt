-- ===== src/Totempg/Received.antt =====
-- What totempg_deliver_fn of exec/totempg.c makes of a packet that goes on where the last one ended.
use corosync.Prelude.{
  ℕ, ◌+◌, ◌≤◌, ◌<◌, ◌≡◌, refl, ap, ◌∙◌, sym, false, some, List, [], ◌∷◌, ◌++◌, length,
  length-append, drop, get_or, init_of, sum, arith, eq→==, lt→ltb, ne→==_false,
}
use corosync.Totempg.Packets.{Packet, msg_len}
use corosync.Totempg.Assembly.{
  Assembly, write, read, delivered_messages, complete_lens, deliver_complete, fresh, keep_fragment,
  totempg_deliver_fn,
}
use corosync.Totempg.Buffer.{
  read_same, read-write_at, read-move_down, first_bytes, delivered_messages-write,
}
use corosync.Totempg.Stream.{open_part_cons, take_all, messages, open_part, length-drop}

init_of-snoc : (lens : List ℕ) (l : ℕ) → init_of (lens ++ l ∷ []) ≡ lens
init_of-snoc [] l = refl
init_of-snoc (k ∷ []) l = refl
init_of-snoc (k ∷ m ∷ lens) l = ap (λ xs. k ∷ xs) (init_of-snoc (m ∷ lens) l)

get_or-snoc : (lens : List ℕ) (l : ℕ) → get_or 0 (lens ++ l ∷ []) (length lens) ≡ l
get_or-snoc [] l = refl
get_or-snoc (k ∷ lens) l = get_or-snoc lens l

pub sum-snoc : (lens : List ℕ) (l : ℕ) → sum (lens ++ l ∷ []) ≡ sum lens + l
sum-snoc [] l = omega arith
sum-snoc (k ∷ lens) l = omega (arith, sum-snoc lens l)

-- The packet goes on where the assembly stands.
pub record Continues (capacity : ℕ) (a : Assembly) (p : Packet) : Type 0 where
  pub is_waiting : a.is_throwing ≡ false
  pub next : p.continuation ≡ a.last_frag_num
  pub whole : sum p.msg_lens ≡ length p.payload
  pub room : a.index + msg_len p < capacity

-- The assembly with the packet's bytes.
abbrev pub filled : Assembly → Packet → Assembly
filled a p = record a { bytes = write a.bytes a.index p.payload }

pub guards_hold :
    (capacity : ℕ) (a : Assembly) (p : Packet)
    → sum p.msg_lens ≡ length p.payload
    → a.index + msg_len p < capacity
    → totempg_deliver_fn capacity a p
      ≡ some
          (keep_fragment (deliver_complete (filled a p) p).0 p, (deliver_complete (filled a p) p).1)
unfolding totempg_deliver_fn
guards_hold capacity a p e h = rw (eq→== _ _ e, lt→ltb _ _ h) refl

-- The assembly before what is not complete is kept.
abbrev passed : Assembly → Packet → Assembly
passed a p = record a { last_frag_num = p.fragmented; index = a.index + sum (complete_lens p) }

deliver_complete_waiting :
    (a : Assembly) (p : Packet)
    → a.is_throwing ≡ false
    → p.continuation ≡ a.last_frag_num
    → deliver_complete a p ≡ (passed a p, delivered_messages a.bytes a.index (complete_lens p))
unfolding deliver_complete
deliver_complete_waiting a p w n = ground (arith, w, n)

delivered :
    (capacity : ℕ) (a : Assembly) (p : Packet)
    → Continues capacity a p
    → totempg_deliver_fn capacity a p
      ≡ some (
        keep_fragment (passed (filled a p) p) p,
        delivered_messages (write a.bytes a.index p.payload) a.index (complete_lens p),
      )
delivered capacity a p c =
    guards_hold capacity a p c.whole c.room
    ∙ ap (λ r. some (keep_fragment r.0 p, r.1))
        (deliver_complete_waiting (filled a p) p c.is_waiting c.next)

-- A last packet gives all its messages.
pub deliver_last :
    (capacity : ℕ) (a : Assembly) (p : Packet)
    → Continues capacity a p
    → p.fragmented ≡ 0
    → totempg_deliver_fn capacity a p
      ≡ some (
        fresh (write a.bytes a.index p.payload),
        messages (read a.bytes 0 a.index) p.msg_lens p.payload,
      )
unfolding keep_fragment
deliver_last capacity a p c f =
    delivered capacity a p c
    ∙ rw
        (
          keep_fragment,
          eq→== _ _ f,
          delivered_messages-write a.bytes a.index p.payload p.msg_lens (omega (arith, c.whole)),
        )
        refl

pub keep_fragment_flags :
    (a : Assembly) (p : Packet)
    → 0 < p.fragmented
    → ((keep_fragment a p).is_throwing ≡ a.is_throwing)
      × ((keep_fragment a p).last_frag_num ≡ a.last_frag_num)
unfolding keep_fragment
keep_fragment_flags a p f = ground arith

last_len : Packet → ℕ
last_len p = get_or 0 p.msg_lens (length (complete_lens p))

keep_fragment_one :
    (a : Assembly) (p : Packet)
    → 0 < p.fragmented
    → length p.msg_lens ≤ 1
    → read (keep_fragment a p).bytes 0 (keep_fragment a p).index
      ≡ read a.bytes 0 (a.index + last_len p)
unfolding keep_fragment last_len
keep_fragment_one a p f h = ground arith

keep_fragment_more :
    (a : Assembly) (p : Packet) (n : ℕ)
    → 0 < p.fragmented
    → 1 < length p.msg_lens
    → get_or 0 p.msg_lens (length (init_of p.msg_lens)) ≡ n
    → read (keep_fragment a p).bytes 0 (keep_fragment a p).index ≡ read a.bytes a.index n
unfolding keep_fragment
keep_fragment_more a p n f h e =
    rw (ne→==_false p.fragmented 0 (λ z. absurd (omega (arith, z, f))), lt→ltb 1 _ h, e)
      (read-move_down a.bytes a.index n 0 n (omega arith)
        ∙ read_same a.bytes (a.index + 0) a.index n n (omega arith) refl)

complete_fragment :
    (p : Packet) (lens : List ℕ) (l : ℕ)
    → 0 < p.fragmented
    → p.msg_lens ≡ lens ++ l ∷ []
    → (complete_lens p ≡ lens) × (last_len p ≡ l)
unfolding last_len
complete_fragment p lens l f e = ground (arith, init_of-snoc lens l, get_or-snoc lens l)

kept_len :
    (p : Packet) (lens : List ℕ) (l : ℕ)
    → p.msg_lens ≡ lens ++ l ∷ []
    → get_or 0 p.msg_lens (length (init_of p.msg_lens)) ≡ l
kept_len p lens l e = rw (e, init_of-snoc lens l) (get_or-snoc lens l)

kept_bytes :
    (a : Assembly) (p : Packet) (lens : List ℕ) (l : ℕ)
    → 0 < p.fragmented
    → p.msg_lens ≡ lens ++ l ∷ []
    → sum p.msg_lens ≡ length p.payload
    → read
        (keep_fragment (passed (filled a p) p) p).bytes
        0
        (keep_fragment (passed (filled a p) p) p).index
      ≡ open_part (read a.bytes 0 a.index) lens p.payload
unfolding open_part
kept_bytes a p [] l f e s =
    keep_fragment_one (passed (filled a p) p) p f (omega (arith, ap length e))
    ∙ rw ((complete_fragment p [] l f e).0, (complete_fragment p [] l f e).1)
        (read_same _ 0 0 (a.index + 0 + l) (a.index + l) refl (omega arith)
          ∙ first_bytes a.bytes a.index p.payload l (omega (arith, s, ap sum e))
          ∙ ap (λ xs. read a.bytes 0 a.index ++ xs)
              (take_all l p.payload (omega (arith, s, ap sum e))))
kept_bytes a p (k ∷ lens) l f e s =
    keep_fragment_more (passed (filled a p) p) p l f
      (omega (arith, ap length e, length-append {0} lens (l ∷ []))) (kept_len p (k ∷ lens) l e)
    ∙ rw (complete_fragment p (k ∷ lens) l f e).0 (
        read-write_at a.bytes a.index p.payload (sum (k ∷ lens)) l
          (omega (arith, s, ap sum e, sum-snoc (k ∷ lens) l))
        ∙ take_all l (drop (sum (k ∷ lens)) p.payload) (
            omega (
              arith,
              s,
              ap sum e,
              sum-snoc (k ∷ lens) l,
              length-drop (sum (k ∷ lens)) p.payload
                  (omega (arith, s, ap sum e, sum-snoc (k ∷ lens) l)),
            ))
        ∙ sym (open_part_cons (read a.bytes 0 a.index) k lens p.payload))

-- A packet whose last message goes on gives the others, and the assembly keeps what there is of it.
pub deliver_fragment :
    (capacity : ℕ) (a : Assembly) (p : Packet) (lens : List ℕ) (l : ℕ)
    → Continues capacity a p
    → 0 < p.fragmented
    → p.msg_lens ≡ lens ++ l ∷ []
    → (b : Assembly) × (totempg_deliver_fn capacity a p
        ≡ some (b, messages (read a.bytes 0 a.index) lens p.payload))
      × (b.is_throwing ≡ false)
      × (b.last_frag_num ≡ p.fragmented)
      × (read b.bytes 0 b.index ≡ open_part (read a.bytes 0 a.index) lens p.payload)
deliver_fragment capacity a p lens l c f e = (
  keep_fragment (passed (filled a p) p) p,
  delivered capacity a p c
      ∙ rw
          (
            (complete_fragment p lens l f e).0,
            delivered_messages-write a.bytes a.index p.payload lens
                (omega (arith, c.whole, ap sum e, sum-snoc lens l)),
          )
          refl,
  (keep_fragment_flags (passed (filled a p) p) p f).0 ∙ c.is_waiting,
  (keep_fragment_flags (passed (filled a p) p) p f).1,
  kept_bytes a p lens l f e c.whole,
)
