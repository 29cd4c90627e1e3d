-- ===== src/Sync/Orders.antt =====
-- The orders in which the messages of a barrier of exec/sync.c may come.
use corosync.Prelude.{
  ℕ, ◌≡◌, ◌≢◌, refl, ap, ◌∙◌, true, false, ◌||◌, List, [], ◌∷◌, arith, ◌==◌, ==→eq, Bool-cases, inl,
  inr, sym,
}
use corosync.Sync.{is_in}
use corosync.Sync.Rounds.{all_in, completes, AllComplete}

-- No one is there twice.
abbrev pub IsDistinct : List ℕ → Type 0
IsDistinct [] = Unit
IsDistinct (x ∷ xs) = (is_in x xs ≡ false) × IsDistinct xs

-- Each member once, and no others.
pub record IsOrder (members order : List ℕ) : Type 0 where
  pub distinct : IsDistinct order
  pub same : (x : ℕ) → is_in x order ≡ is_in x members

abbrev pub AllOrders : List ℕ → List (List ℕ) → Type 0
AllOrders members [] = Unit
AllOrders members (order ∷ orders) = IsOrder members order × AllOrders members orders

all_in-every :
    (seen ms : List ℕ) → ((x : ℕ) → is_in x ms ≡ true → is_in x seen ≡ true) → all_in seen ms ≡ true
unfolding is_in
all_in-every seen [] h = refl
all_in-every seen (m ∷ ms) h =
    rw (h m (ground arith)) (all_in-every seen ms (λ x i. h x (ground (arith, i))))

all_in-missing :
    (x : ℕ) (seen ms : List ℕ) → is_in x ms ≡ true → is_in x seen ≡ false → all_in seen ms ≡ false
unfolding is_in
all_in-missing x seen [] i n = cc
all_in-missing x seen (m ∷ ms) i n = elim (Bool-cases (x == m)) [
  | inl e ↦ rw (ap (λ k. is_in k seen) (sym (==→eq _ _ e)) ∙ n) refl
  | inr e ↦ ground (arith, e, i, all_in-missing x seen ms (ground (arith, e, i)) n)
]

apart :
    (z x : ℕ) (ys seen : List ℕ)
    → is_in z ys ≡ true
    → is_in x ys ≡ false
    → is_in z seen ≡ false
    → is_in z (x ∷ seen) ≡ false
unfolding is_in
apart z x ys seen i d n = elim (Bool-cases (z == x)) [
  | inl e ↦ absurd (differ (sym i ∙ ap (λ k. is_in k ys) (==→eq _ _ e) ∙ d))
  | inr e ↦ rw (e, n) refl
]
  where
    differ : true ≡ false → ⊥
    differ h = cc

completes_from :
    (members seen order : List ℕ)
    → IsDistinct order
    → ((x : ℕ) → is_in x order ≡ true → is_in x members ≡ true)
    → ((x : ℕ) → is_in x members ≡ true → (is_in x order || is_in x seen) ≡ true)
    → ((x : ℕ) → is_in x order ≡ true → is_in x seen ≡ false)
    → order ≢ []
    → completes members seen order ≡ true
unfolding is_in
completes_from members seen [] d m c n e = absurd (e refl)
completes_from members seen (x ∷ []) d m c n e =
    rw (all_in-every (x ∷ seen) members (λ y i. ground (arith, c y i))) refl
completes_from members seen (x ∷ y ∷ ys) d m c n e =
    rw
      (all_in-missing y (x ∷ seen) members (m y (ground arith))
        (ground (arith, d.0, n y (ground arith))))
      (completes_from members (x ∷ seen) (y ∷ ys) d.1 (λ z i. m z (ground (arith, i)))
        (λ z i. ground (arith, c z i))
        (λ z i. apart z x (y ∷ ys) seen i d.0 (n z (ground (arith, i)))) (λ q. cc))

nothing_in : (x : ℕ) → is_in x [] ≡ false
unfolding is_in
nothing_in x = refl

pub IsOrder-completes :
    (members order : List ℕ)
    → IsOrder members order
    → order ≢ []
    → completes members [] order ≡ true
IsOrder-completes members order h e =
    completes_from members [] order h.distinct (λ x i. sym (h.same x) ∙ i)
      (λ x i. rw (h.same x ∙ i) refl) (λ x i. nothing_in x) e

pub not_nil : (m : ℕ) (ms order : List ℕ) → IsOrder (m ∷ ms) order → order ≢ []
unfolding is_in
not_nil m ms order h e = ground (arith, h.same m, ap (is_in m) e)

pub AllOrders-AllComplete :
    (m : ℕ) (ms : List ℕ) (orders : List (List ℕ))
    → AllOrders (m ∷ ms) orders
    → AllComplete (m ∷ ms) orders
AllOrders-AllComplete m ms [] h = tt
AllOrders-AllComplete m ms (order ∷ orders) h = (
  IsOrder-completes (m ∷ ms) order h.0 (not_nil m ms order h.0),
  AllOrders-AllComplete m ms orders h.1,
)
