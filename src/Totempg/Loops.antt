-- ===== src/Totempg/Loops.antt =====
-- The turns of the loop of mcast_msg in exec/totempg.c, and the bytes before it.
use corosync.Prelude.{
  ℕ, zero, suc, ◌+◌, ◌^◌, ◌≤◌, ◌<◌, ◌≡◌, ◌≢◌, refl, ap, ◌∙◌, sym, Bool, true, not, inl, inr, some,
  List, [], ◌∷◌, ◌++◌, length, length-append, take, drop, arith, ◌==◌, ==→eq, if-cases,
  if◌then◌else◌,
}
use mathlib.Core.List.{append-nil, append_assoc}
use corosync.Totempg.Packets.{Packet}
use corosync.Totempg.Send.{
  Staging, Loop, copy_all, copy_len_of, packet_of, flushed, fits, mcast_loop, count_message,
}
use corosync.Totempg.Flushed.{chunk, copy_len_bounds}
use corosync.Totempg.Stream.{drop-drop, drop_all, length-drop}
use corosync.Totempg.Sent.{copied-counts}

-- The bytes of iovecs.
abbrev pub joined : List (List ℕ) → List ℕ
joined [] = []
joined (v ∷ vs) = v ++ joined vs

-- Those that are not copied.
abbrev pub rest_of : ℕ → List (List ℕ) → List ℕ
rest_of base [] = []
rest_of base (v ∷ vs) = drop base v ++ joined vs

abbrev pub NoneEmpty : List (List ℕ) → Type 0
NoneEmpty [] = Unit
NoneEmpty (v ∷ vs) = (0 < length v) × NoneEmpty vs

-- Something of the message is left for the loop, or in the buffer, where the next message has room.
abbrev pub HasBytes : Loop → List (List ℕ) → Type 0
HasBytes l [] = (0 < l.msg_len) × (length l.staging.fragmentation_data + 2 < l.max_packet_size)
HasBytes l (v ∷ vs) = (l.copy_base < length v) × NoneEmpty vs

-- The three ways to go on.
pub data Turn (net_mtu : ℕ) (accepts : Packet → Bool) (fuel : ℕ) (l : Loop) (v : List ℕ)
    (after : List (List ℕ)) (t : Staging) : Type 0 where
  copied :
      fits l v ≡ true
      → mcast_loop net_mtu accepts fuel (copy_all l v) after ≡ some (t, true)
      → Turn net_mtu accepts fuel l v after t
  finished :
      l.copy_base + copy_len_of l v ≡ length v
      → mcast_loop net_mtu accepts fuel (flushed net_mtu l v after) after ≡ some (t, true)
      → Turn net_mtu accepts fuel l v after t
  unfinished :
      l.copy_base + copy_len_of l v ≢ length v
      → mcast_loop net_mtu accepts fuel (flushed net_mtu l v after) (v ∷ after) ≡ some (t, true)
      → Turn net_mtu accepts fuel l v after t

pub turn :
    (net_mtu : ℕ) (accepts : Packet → Bool) (fuel : ℕ) (l : Loop) (v : List ℕ)
    (after : List (List ℕ)) (t : Staging)
    → mcast_loop net_mtu accepts (suc fuel) l (v ∷ after) ≡ some (t, true)
    → Turn net_mtu accepts fuel l v after t
unfolding mcast_loop
turn net_mtu accepts fuel l v after t h = elim (if-cases (fits l v) _ _ _ h) [
  | inl (f, e) ↦ Turn.copied f e
  | inr (f, e) ↦ elim (if-cases (l.staging.room == 0) _ _ _ e) [
    | inl (z, e) ↦ cc
    | inr (z, e) ↦ elim (if-cases (not (accepts (packet_of l v after))) _ _ _ e) [
      | inl (z, e) ↦ cc
      | inr (z, e) ↦ elim (if-cases (l.copy_base + copy_len_of l v == length v) _ _ _ e) [
        | inl (d, e) ↦ Turn.finished (==→eq _ _ d) e
        | inr (d, e) ↦ Turn.unfinished (λ q. ground (arith, q, d)) e
      ]
    ]
  ]
]

take-drop : (n : ℕ) (xs : List ℕ) → take n xs ++ drop n xs ≡ xs
take-drop zero xs = refl
take-drop (suc n) [] = refl
take-drop (suc n) (x ∷ xs) = ap (λ zs. x ∷ zs) (take-drop n xs)

chunk_rest :
    (l : Loop) (v : List ℕ)
    → chunk l v ++ drop (l.copy_base + copy_len_of l v) v ≡ drop l.copy_base v
chunk_rest l v =
    ap (λ xs. chunk l v ++ xs) (sym (drop-drop l.copy_base (copy_len_of l v) v))
    ∙ take-drop (copy_len_of l v) (drop l.copy_base v)

pub chunk_all :
    (l : Loop) (v : List ℕ)
    → l.copy_base + copy_len_of l v ≡ length v
    → chunk l v ≡ drop l.copy_base v
chunk_all l v e =
    sym (append-nil (chunk l v))
    ∙ ap (λ xs. chunk l v ++ xs) (sym (drop_all _ v e))
    ∙ chunk_rest l v

pub rest_of_start : (vs : List (List ℕ)) → rest_of 0 vs ≡ joined vs
rest_of_start [] = refl
rest_of_start (v ∷ vs) = refl

-- What comes after a packet that ends with the iovec.
pub rest_after :
    (l : Loop) (v : List ℕ) (after : List (List ℕ)) (consumed : List ℕ)
    → l.copy_base + copy_len_of l v ≡ length v
    → (consumed ++ chunk l v) ++ joined after ≡ consumed ++ (drop l.copy_base v ++ joined after)
rest_after l v after consumed e =
    append_assoc consumed (chunk l v) (joined after)
    ∙ ap (λ xs. consumed ++ (xs ++ joined after)) (chunk_all l v e)

-- What comes after a packet in the middle of the iovec.
pub rest_within :
    (l : Loop) (v : List ℕ) (after : List (List ℕ)) (consumed : List ℕ)
    → (consumed ++ chunk l v) ++ (drop (l.copy_base + copy_len_of l v) v ++ joined after)
      ≡ consumed ++ (drop l.copy_base v ++ joined after)
rest_within l v after consumed =
    append_assoc consumed (chunk l v) (drop (l.copy_base + copy_len_of l v) v ++ joined after)
    ∙ ap (λ xs. consumed ++ xs)
        (sym (append_assoc (chunk l v) (drop (l.copy_base + copy_len_of l v) v) (joined after))
          ∙ ap (λ xs. xs ++ joined after) (chunk_rest l v))

pub loop_end :
    (net_mtu : ℕ) (accepts : Packet → Bool) (fuel : ℕ) (l : Loop) (t : Staging)
    → mcast_loop net_mtu accepts fuel l [] ≡ some (t, true)
    → count_message l ≡ t
unfolding mcast_loop
loop_end net_mtu accepts zero l t h = cc
loop_end net_mtu accepts (suc fuel) l t h = cc

pub lt_of :
    (l : Loop) (v : List ℕ)
    → l.copy_base < length v
    → length l.staging.fragmentation_data < l.max_packet_size
    → l.copy_base + copy_len_of l v ≢ length v
    → l.copy_base + copy_len_of l v < length v
lt_of l v b h d = ground (arith, d, copy_len_bounds l v b h)

pub copy_all-HasBytes :
    (l : Loop) (v : List ℕ) (after : List (List ℕ))
    → 2 ≤ l.max_packet_size
    → fits l v ≡ true
    → l.msg_len ≤ length l.staging.fragmentation_data
    → l.max_packet_size < 2 ^ 16
    → HasBytes l (v ∷ after)
    → HasBytes (copy_all l v) after
unfolding copy_all
copy_all-HasBytes l v [] t f m n b =
    let rest = drop l.copy_base v in
    let some_left : length rest + l.copy_base ≡ length v =
      length-drop l.copy_base v (omega (arith, b)) in
    (
      omega (arith, m, n, b, some_left, copied-counts l v b.0 f t),
      omega (arith, copied-counts l v b.0 f t, length-append {0} l.staging.fragmentation_data rest),
    )
copy_all-HasBytes l v (w ∷ after) t f m n b = b.1

-- The loop after a packet.
pub flushed_loop :
    (net_mtu : ℕ) (l : Loop) (v : List ℕ) (after : List (List ℕ))
    → ((flushed net_mtu l v after).msg_len ≡ 0)
      × ((flushed net_mtu l v after).copy_base ≡ (
          if l.copy_base + copy_len_of l v == length v then 0 else l.copy_base + copy_len_of l v))
unfolding flushed
flushed_loop net_mtu l v after = (refl, refl)
