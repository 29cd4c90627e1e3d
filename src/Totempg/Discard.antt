-- ===== src/Totempg/Discard.antt =====
-- How totempg_deliver_fn of exec/totempg.c throws packets away after a gap.
use corosync.Prelude.{
  ℕ, zero, suc, ◌+◌, ◌≤◌, ◌<◌, ◌≡◌, ◌≢◌, refl, ap, ◌∙◌, sym, true, false, some, List, [], ◌∷◌, ◌++◌,
  length, get_or, sum, arith, eq→==, ne→==_false,
}
use corosync.Totempg.Packets.{Packet, msg_len}
use corosync.Totempg.Assembly.{
  Assembly, write, complete_lens, fresh, deliver_complete, keep_fragment, totempg_deliver_fn,
  deliver_all,
}
use corosync.Totempg.Received.{filled, guards_hold, keep_fragment_flags}
use corosync.Totempg.Sent.{prepend_nil}

-- The bytes that packets have in all.
abbrev pub total_len : List Packet → ℕ
total_len [] = 0
total_len (p ∷ ps) = msg_len p + total_len ps

-- Packets in the middle of one message, whose lengths add up.
abbrev pub InMiddle : List Packet → Type 0
InMiddle [] = Unit
InMiddle (p ∷ ps) = (2 ≤ p.fragmented) × (sum p.msg_lens ≡ length p.payload) × InMiddle ps

get_or_bound : (lens : List ℕ) (k : ℕ) → get_or 0 lens k ≤ sum lens
get_or_bound [] k = omega arith
get_or_bound (l ∷ lens) zero = omega arith
get_or_bound (l ∷ lens) (suc k) = omega (arith, get_or_bound lens k)

keep_fragment_index :
    (a : Assembly) (p : Packet)
    → sum p.msg_lens ≡ length p.payload
    → (keep_fragment a p).index ≤ a.index + length p.payload
unfolding keep_fragment
keep_fragment_index a p e = ground (arith, get_or_bound p.msg_lens (length (complete_lens p)), e)

-- A buffer after a packet of which nothing is delivered.
record Thrown (capacity : ℕ) (a : Assembly) (p : Packet) : Type 0 where
  next : Assembly
  nothing : totempg_deliver_fn capacity a p ≡ some (next, [])
  throws : next.is_throwing ≡ true
  grown : next.index ≤ a.index + length p.payload

gap :
    (capacity : ℕ) (a : Assembly) (p : Packet)
    → a.is_throwing ≡ false
    → p.continuation ≢ a.last_frag_num
    → 0 < p.fragmented
    → sum p.msg_lens ≡ length p.payload
    → a.index + msg_len p < capacity
    → Thrown capacity a p
unfolding deliver_complete
gap capacity a p w n f e r = record {
  next = keep_fragment (record (filled a p) { is_throwing = true }) p;
  nothing = guards_hold capacity a p e r ∙ rw (w, ne→==_false _ _ n) refl;
  throws = (keep_fragment_flags (record (filled a p) { is_throwing = true }) p f).0;
  grown = keep_fragment_index (record (filled a p) { is_throwing = true }) p e;
}

unmoved :
    (a : Assembly) (p : Packet)
    → a.is_throwing ≡ true
    → 2 ≤ p.fragmented
    → deliver_complete a p ≡ (a, [])
unfolding deliver_complete
unmoved a p w f = ground (arith, w, f)

stopped :
    (a : Assembly) (p : Packet)
    → a.is_throwing ≡ true
    → p.fragmented ≡ 0
    → deliver_complete a p
      ≡ (record a { is_throwing = false; index = a.index + get_or 0 p.msg_lens 0 }, [])
unfolding deliver_complete
stopped a p w f = ground (arith, w, f)

in_middle :
    (capacity : ℕ) (a : Assembly) (p : Packet)
    → a.is_throwing ≡ true
    → 2 ≤ p.fragmented
    → sum p.msg_lens ≡ length p.payload
    → a.index + msg_len p < capacity
    → Thrown capacity a p
unfolding deliver_complete
in_middle capacity a p w f e r = record {
  next = keep_fragment (filled a p) p;
  nothing =
      guards_hold capacity a p e r
      ∙ ap (λ r. some (keep_fragment r.0 p, r.1)) (unmoved (filled a p) p w f);
  throws = (keep_fragment_flags (filled a p) p (omega (arith, f))).0 ∙ w;
  grown = keep_fragment_index (filled a p) p e;
}

at_end :
    (capacity : ℕ) (a : Assembly) (p : Packet)
    → a.is_throwing ≡ true
    → p.fragmented ≡ 0
    → sum p.msg_lens ≡ length p.payload
    → a.index + msg_len p < capacity
    → totempg_deliver_fn capacity a p ≡ some (fresh (write a.bytes a.index p.payload), [])
unfolding deliver_complete keep_fragment
at_end capacity a p w f e r =
    guards_hold capacity a p e r
    ∙ ap (λ r. some (keep_fragment r.0 p, r.1)) (stopped (filled a p) p w f)
    ∙ rw (eq→== _ _ f) refl

throwing :
    (capacity : ℕ) (a : Assembly) (ps : List Packet) (p : Packet) (qs : List Packet)
    → a.is_throwing ≡ true
    → InMiddle ps
    → p.fragmented ≡ 0
    → sum p.msg_lens ≡ length p.payload
    → a.index + total_len (ps ++ p ∷ []) < capacity
    → (bytes : ℕ → ℕ) × (deliver_all capacity a (ps ++ p ∷ qs)
        ≡ deliver_all capacity (fresh bytes) qs)
unfolding deliver_all
throwing capacity a [] p qs w m f e r = (
  write a.bytes a.index p.payload,
  rw (at_end capacity a p w f e (omega (arith, r))) (sym (prepend_nil _)),
)
throwing capacity a (q ∷ ps) p qs w m f e r =
    let t = in_middle capacity a q w m.0 m.1 (omega (arith, r)) in
    let rest = throwing capacity t.next ps p qs t.throws m.2 f e (omega (arith, r, t.grown)) in
    (rest.0, rw t.nothing (sym (prepend_nil _) ∙ rest.1))

-- After a gap nothing is delivered up to a packet that ends with its last message, where the packets between are
-- in the middle of one message; from there on the receiver does what one without a buffer does.
pub deliver_all_gap :
    (capacity : ℕ) (a : Assembly) (g : Packet) (ps : List Packet) (p : Packet) (qs : List Packet)
    → a.is_throwing ≡ false
    → g.continuation ≢ a.last_frag_num
    → 0 < g.fragmented
    → sum g.msg_lens ≡ length g.payload
    → InMiddle ps
    → p.fragmented ≡ 0
    → sum p.msg_lens ≡ length p.payload
    → a.index + total_len (g ∷ (ps ++ p ∷ [])) < capacity
    → (bytes : ℕ → ℕ) × (deliver_all capacity a (g ∷ (ps ++ p ∷ qs))
        ≡ deliver_all capacity (fresh bytes) qs)
unfolding deliver_all
deliver_all_gap capacity a g ps p qs w n f e m l s r =
    let t = gap capacity a g w n f e (omega (arith, r)) in
    let rest = throwing capacity t.next ps p qs t.throws m l s (omega (arith, r, t.grown)) in
    (rest.0, rw t.nothing (sym (prepend_nil _) ∙ rest.1))
