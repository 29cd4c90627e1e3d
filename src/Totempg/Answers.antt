-- ===== src/Totempg/Answers.antt =====
-- The loop of mcast_msg in exec/totempg.c ends.
use corosync.Prelude.{
  ℕ, zero, suc, ◌+◌, ◌-◌, ◌*◌, ◌≤◌, ◌<◌, ◌≡◌, ◌≢◌, refl, ap, ◌∙◌, Bool, true, false, not, Option,
  some, List, [], ◌∷◌, length, length-append, drop, arith, ltb, ◌==◌, eq→==, ==→eq, ne→==_false,
  if◌then◌else◌,
}
use corosync.Totempg.Packets.{Packet}
use corosync.Totempg.Send.{
  Staging, Loop, packet_size, copy_all, copy_len_of, packet_of, flushed, numbered, refused, fits,
  count_message, mcast_loop, start, remove_empty, total_size, byte_count_send_ok, mcast_msg,
}
use corosync.Totempg.Stream.{length-drop}
use corosync.Totempg.Flushed.{copy_len_bounds}
use corosync.Totempg.Sent.{copied-counts}
use corosync.Totempg.Empty.{joined-remove_empty, remove_empty-NoneEmpty}
use corosync.Totempg.Loops.{joined, rest_of, rest_of_start, NoneEmpty, flushed_loop, lt_of}

-- The buffer leaves room in a packet for another length and a byte, and packets have room for a few bytes.
pub record HasSpace (net_mtu : ℕ) (s : Staging) : Type 0 where
  pub wide : 5 ≤ packet_size net_mtu
  pub space : length s.fragmentation_data + 2 * (length s.packed_msg_lens + 1) < packet_size net_mtu
  pub two : 2 * (length s.packed_msg_lens + 1) + 2 ≤ packet_size net_mtu

-- What the iovecs from here on have is not empty.
abbrev HasLeft : Loop → List (List ℕ) → Type 0
HasLeft l [] = Unit
HasLeft l (v ∷ vs) = (l.copy_base < length v) × NoneEmpty vs

-- The loop has room in the packet and in the ring for what is left, and the fuel for it.
record CanGo (fuel : ℕ) (l : Loop) (iovecs : List (List ℕ)) : Type 0 where
  below : length l.staging.fragmentation_data < l.max_packet_size
  two : 2 ≤ l.max_packet_size
  has_left : HasLeft l iovecs
  enough_fuel : length (rest_of l.copy_base iovecs) < fuel
  enough_room : length (rest_of l.copy_base iovecs) ≤ l.staging.room

left_cons :
    (base : ℕ) (v : List ℕ) (after : List (List ℕ))
    → base ≤ length v
    → length (rest_of base (v ∷ after)) + base ≡ length v + length (joined after)
left_cons base v after b =
    omega (arith, length-drop base v b, length-append {0} (drop base v) (joined after))

flushed_sizes :
    (net_mtu : ℕ) (l : Loop) (v : List ℕ) (after : List (List ℕ))
    → ((flushed net_mtu l v after).staging.room ≡ l.staging.room - 1)
      × ((flushed net_mtu l v after).max_packet_size ≡ packet_size net_mtu - 2)
      × (length (flushed net_mtu l v after).staging.fragmentation_data ≡ 0)
unfolding flushed numbered
flushed_sizes net_mtu l v after = (ground arith, refl, refl)

start-HasLeft :
    (l : Loop) (iovecs : List (List ℕ)) → l.copy_base ≡ 0 → NoneEmpty iovecs → HasLeft l iovecs
start-HasLeft l [] e n = tt
start-HasLeft l (v ∷ vs) e n = (omega (arith, e, n.0), n.1)

copied-CanGo :
    (fuel : ℕ) (l : Loop) (v : List ℕ) (after : List (List ℕ))
    → CanGo (suc fuel) l (v ∷ after)
    → fits l v ≡ true
    → CanGo fuel (copy_all l v) after
unfolding copy_all
copied-CanGo fuel l v after g f = record {
  below = omega (
    arith,
    copied-counts l v g.has_left.0 f g.two,
    length-append {0} l.staging.fragmentation_data (drop l.copy_base v),
  );
  two = g.two;
  has_left = start-HasLeft (copy_all l v) after refl g.has_left.1;
  enough_fuel = omega (
    arith,
    g.enough_fuel,
    g.has_left,
    left_cons l.copy_base v after (omega (arith, g.has_left)),
    ap length (rest_of_start after),
  );
  enough_room = omega (
    arith,
    g.enough_room,
    g.has_left,
    left_cons l.copy_base v after (omega (arith, g.has_left)),
    ap length (rest_of_start after),
  );
}

has_room :
    (fuel : ℕ) (l : Loop) (v : List ℕ) (after : List (List ℕ))
    → CanGo fuel l (v ∷ after)
    → l.staging.room ≢ 0
has_room fuel l v after g z = absurd (
    omega (
      arith,
      g.has_left,
      g.enough_room,
      z,
      left_cons l.copy_base v after (omega (arith, g.has_left)),
    ))

abbrev Answers : Option (Staging × Bool) → Type 0
Answers r = (t : Staging) × (b : Bool) × (r ≡ some (t, b))

either :
    (b : Bool) (x y : Option (Staging × Bool))
    → (b ≡ true → Answers x)
    → (b ≡ false → Answers y)
    → Answers (if b then x else y)
either true x y h k = h refl
either false x y h k = k refl

module _ (net_mtu : ℕ) (wide : 5 ≤ packet_size net_mtu) where
  finished-CanGo :
      (fuel : ℕ) (l : Loop) (v : List ℕ) (after : List (List ℕ))
      → CanGo (suc fuel) l (v ∷ after)
      → l.copy_base + copy_len_of l v ≡ length v
      → CanGo fuel (flushed net_mtu l v after) after
  finished-CanGo fuel l v after g d =
      let at_start : (flushed net_mtu l v after).copy_base ≡ 0 =
        (flushed_loop net_mtu l v after).1 ∙ rw (eq→== _ _ d) refl in
      let less : length (rest_of (flushed net_mtu l v after).copy_base after)
          < length (rest_of l.copy_base (v ∷ after)) =
        rw at_start (
          omega (
            arith,
            g.has_left,
            left_cons l.copy_base v after (omega (arith, g.has_left)),
            ap length (rest_of_start after),
          )) in
      record {
        below = omega (arith, flushed_sizes net_mtu l v after, wide);
        two = omega (arith, flushed_sizes net_mtu l v after, wide);
        has_left = start-HasLeft (flushed net_mtu l v after) after at_start g.has_left.1;
        enough_fuel = omega (arith, less, g.enough_fuel);
        enough_room = omega (arith, less, g.enough_room, flushed_sizes net_mtu l v after);
      }

  unfinished-CanGo :
      (fuel : ℕ) (l : Loop) (v : List ℕ) (after : List (List ℕ))
      → CanGo (suc fuel) l (v ∷ after)
      → l.copy_base + copy_len_of l v ≢ length v
      → CanGo fuel (flushed net_mtu l v after) (v ∷ after)
  unfinished-CanGo fuel l v after g d =
      let within : l.copy_base + copy_len_of l v < length v = lt_of l v g.has_left.0 g.below d in
      let further : (flushed net_mtu l v after).copy_base ≡ l.copy_base + copy_len_of l v =
        (flushed_loop net_mtu l v after).1 ∙ rw (ne→==_false _ _ d) refl in
      let less : length (rest_of (flushed net_mtu l v after).copy_base (v ∷ after))
          < length (rest_of l.copy_base (v ∷ after)) =
        rw further (
          omega (
            arith,
            left_cons l.copy_base v after (omega (arith, g.has_left)),
            left_cons (l.copy_base + copy_len_of l v) v after (omega (arith, within)),
            copy_len_bounds l v g.has_left.0 g.below,
          )) in
      record {
        below = omega (arith, flushed_sizes net_mtu l v after, wide);
        two = omega (arith, flushed_sizes net_mtu l v after, wide);
        has_left = (omega (arith, further, within), g.has_left.1);
        enough_fuel = omega (arith, less, g.enough_fuel);
        enough_room = omega (arith, less, g.enough_room, flushed_sizes net_mtu l v after);
      }

  module _ (accepts : Packet → Bool) where
    mcast_loop-Answers :
        (fuel : ℕ) (l : Loop) (iovecs : List (List ℕ))
        → CanGo fuel l iovecs
        → Answers (mcast_loop net_mtu accepts fuel l iovecs)
    unfolding mcast_loop
    mcast_loop-Answers zero l iovecs g = absurd (omega (arith, g.enough_fuel))
    mcast_loop-Answers (suc fuel) l [] g = (count_message l, true, refl)
    mcast_loop-Answers (suc fuel) l (v ∷ after) g =
        either (fits l v) _ _
          (λ f. mcast_loop-Answers fuel (copy_all l v) after (copied-CanGo fuel l v after g f))
          (λ f.
            either (l.staging.room == 0) _ _
              (λ z. absurd (has_room (suc fuel) l v after g (==→eq _ _ z)))
              (λ z.
                either (not (accepts (packet_of l v after))) _ _
                  (λ r. (refused l v after, false, refl))
                  (λ r.
                    either (l.copy_base + copy_len_of l v == length v) _ _
                      (λ d.
                        mcast_loop-Answers fuel (flushed net_mtu l v after) after
                          (finished-CanGo fuel l v after g (==→eq _ _ d)))
                      (λ d.
                        mcast_loop-Answers fuel (flushed net_mtu l v after) (v ∷ after)
                          (unfinished-CanGo fuel l v after g (λ q. ground (arith, q, d)))))))

total_size_lem : (vs : List (List ℕ)) → total_size vs ≡ length (joined vs)
unfolding total_size
total_size_lem [] = refl
total_size_lem (v ∷ vs) = omega (arith, total_size_lem vs, length-append {0} v (joined vs))

start-CanGo :
    (net_mtu : ℕ) (s : Staging) (iovecs : List (List ℕ))
    → HasSpace net_mtu s
    → NoneEmpty iovecs
    → length (joined iovecs) ≤ s.room
    → CanGo (suc (total_size iovecs)) (start net_mtu s) iovecs
start-CanGo net_mtu s iovecs h n r = record {
  below = omega (arith, h.space);
  two = omega (arith, h.two);
  has_left = start-HasLeft (start net_mtu s) iovecs refl n;
  enough_fuel = omega (arith, total_size_lem iovecs, ap length (rest_of_start iovecs));
  enough_room = omega (arith, r, ap length (rest_of_start iovecs));
}

-- mcast_msg returns, sent or refused, and no assertion in it fails, for fewer than 64 iovecs with no more bytes
-- than the ring below takes packets, when the buffer leaves room in a packet.
pub mcast_msg_returns :
    (net_mtu : ℕ) (accepts : Packet → Bool) (s : Staging) (iovec_in : List (List ℕ))
    → HasSpace net_mtu s
    → length iovec_in < 64
    → length (joined iovec_in) ≤ s.room
    → (t : Staging) × (b : Bool) × (mcast_msg net_mtu accepts s iovec_in ≡ some (t, b))
unfolding mcast_msg
mcast_msg_returns net_mtu accepts s iovec_in h k r =
    either (not (ltb (length iovec_in) 64)) _ _ (λ f. ground (arith, k, f))
      (λ f.
        either
          (not (
            byte_count_send_ok net_mtu s
              (total_size (remove_empty iovec_in) + 2 * length s.packed_msg_lens)))
          _ _ (λ f. (s, false, refl))
          (λ f.
            mcast_loop-Answers net_mtu h.wide accepts (suc (total_size (remove_empty iovec_in)))
              (start net_mtu s) (remove_empty iovec_in)
              (start-CanGo net_mtu s (remove_empty iovec_in) h (remove_empty-NoneEmpty iovec_in)
                (omega (arith, r, ap length (joined-remove_empty iovec_in))))))
