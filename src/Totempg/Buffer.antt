-- ===== src/Totempg/Buffer.antt =====
-- Reading the buffer of exec/totempg.c after memcpy and memmove.
use corosync.Prelude.{
  ℕ, zero, suc, ◌+◌, ◌-◌, ◌≤◌, ◌<◌, ◌≡◌, refl, ap, ◌∙◌, List, [], ◌∷◌, ◌++◌, length, take, drop,
  get_or, sum, arith,
}
use native.Mathlib.Nat.{add_assoc}
use corosync.Totempg.Assembly.{write, read, move_down, later_messages, delivered_messages}
use corosync.Totempg.Stream.{drop-drop, messages}

pub read_same :
    (bytes : ℕ → ℕ) (from from' n n' : ℕ)
    → from ≡ from'
    → n ≡ n'
    → read bytes from n ≡ read bytes from' n'
read_same bytes from from' n n' h k = ap (λ i. read bytes i n) h ∙ ap (read bytes from') k

read-append :
    (bytes : ℕ → ℕ) (from a b : ℕ)
    → read bytes from (a + b) ≡ read bytes from a ++ read bytes (from + a) b
unfolding read
read-append bytes from zero b =
    read_same bytes from (from + 0) (0 + b) b (omega arith) (omega arith)
read-append bytes from (suc a) b =
    read_same bytes from from (suc a + b) (suc (a + b)) refl (omega arith)
    ∙ ap (λ xs. bytes from ∷ xs)
        (read-append bytes (suc from) a b
          ∙ ap (λ xs. read bytes (suc from) a ++ xs)
              (read_same bytes (suc from + a) (from + suc a) b b (omega arith) refl))

read-write_before :
    (bytes : ℕ → ℕ) (at : ℕ) (xs : List ℕ) (from n : ℕ)
    → from + n ≤ at
    → read (write bytes at xs) from n ≡ read bytes from n
unfolding read
read-write_before bytes at xs from zero h = refl
read-write_before bytes at xs from (suc n) h =
    rw (read-write_before bytes at xs (suc from) n (omega (arith, h))) (ground arith)

get_or-drop : (xs : List ℕ) (k : ℕ) → k < length xs → drop k xs ≡ get_or 0 xs k ∷ drop (suc k) xs
get_or-drop [] k h = absurd (omega arith)
get_or-drop (x ∷ xs) zero h = refl
get_or-drop (x ∷ xs) (suc k) h = get_or-drop xs k (omega (arith, h))

written :
    (bytes : ℕ → ℕ) (at : ℕ) (xs : List ℕ) (k : ℕ)
    → k < length xs
    → write bytes at xs (at + k) ≡ get_or 0 xs k
written bytes at xs k h = ground (arith, ap (get_or 0 xs) (cancelled at k))
  where
    cancelled : (n m : ℕ) → n + m - n ≡ m
    cancelled n m = omega arith

pub read-write_at :
    (bytes : ℕ → ℕ) (at : ℕ) (xs : List ℕ) (k n : ℕ)
    → k + n ≤ length xs
    → read (write bytes at xs) (at + k) n ≡ take n (drop k xs)
unfolding read
read-write_at bytes at xs k zero h = refl
read-write_at bytes at xs k (suc n) h =
    rw
      (
        get_or-drop xs k (omega (arith, h)),
        read_same (write bytes at xs) (suc (at + k)) (at + suc k) n n (omega arith) refl,
        read-write_at bytes at xs (suc k) n (omega (arith, h)),
      )
      (ap (λ x. x ∷ take n (drop (suc k) xs)) (written bytes at xs k (omega (arith, h))))

pub read-move_down :
    (bytes : ℕ → ℕ) (from n k m : ℕ)
    → k + m ≤ n
    → read (move_down bytes from n) k m ≡ read bytes (from + k) m
unfolding read
read-move_down bytes from n k zero h = refl
read-move_down bytes from n k (suc m) h =
    rw
      (
        read-move_down bytes from n (suc k) m (omega (arith, h)),
        read_same bytes (from + suc k) (suc (from + k)) m m (omega arith) refl,
      )
      (ap (λ x. x ∷ read bytes (suc (from + k)) m) (ground arith))

later_messages-write :
    (bytes : ℕ → ℕ) (at : ℕ) (xs : List ℕ) (k : ℕ) (lens : List ℕ)
    → k + sum lens ≤ length xs
    → later_messages (write bytes at xs) (at + k) lens ≡ messages [] lens (drop k xs)
unfolding later_messages messages
later_messages-write bytes at xs k [] h = refl
later_messages-write bytes at xs k (l ∷ lens) h =
    rw
      (
        read-write_at bytes at xs k l (omega (arith, h)),
        add_assoc at k l,
        later_messages-write bytes at xs (k + l) lens (omega (arith, h)),
        drop-drop k l xs,
      )
      refl

pub first_bytes :
    (bytes : ℕ → ℕ) (at : ℕ) (xs : List ℕ) (l : ℕ)
    → l ≤ length xs
    → read (write bytes at xs) 0 (at + l) ≡ read bytes 0 at ++ take l xs
first_bytes bytes at xs l h =
    read-append (write bytes at xs) 0 at l
    ∙ rw
        (
          read-write_before bytes at xs 0 at (omega arith),
          read_same (write bytes at xs) (0 + at) (at + 0) l l (omega arith) refl,
          read-write_at bytes at xs 0 l (omega (arith, h)),
        )
        refl

pub delivered_messages-write :
    (bytes : ℕ → ℕ) (at : ℕ) (xs lens : List ℕ)
    → sum lens ≤ length xs
    → delivered_messages (write bytes at xs) at lens ≡ messages (read bytes 0 at) lens xs
unfolding delivered_messages messages
delivered_messages-write bytes at xs [] h = refl
delivered_messages-write bytes at xs (l ∷ lens) h =
    rw
      (
        first_bytes bytes at xs l (omega (arith, h)),
        later_messages-write bytes at xs l lens (omega (arith, h)),
      )
      refl
