-- ===== src/Totemsrp/Sets/Contents.antt =====
-- What the set operations of exec/totemsrp.c contain.
use corosync.Prelude.{
  ℕ, ◌≡◌, refl, Bool, true, false, not, ◌&&◌, ◌||◌, List, [], ◌∷◌, ◌++◌, if◌then◌else◌, arith,
}
use corosync.Totemsrp.Sets.{contains, memb_set_subtract, memb_set_merge}

pub contains-append :
    (x : ℕ) (xs ys : List ℕ) → contains x (xs ++ ys) ≡ contains x xs || contains x ys
unfolding contains
contains-append x [] ys = refl
contains-append x (z ∷ xs) ys = ground (arith, contains-append x xs ys)

-- memb_set_subtract keeps just the nodes of the first set that are not in the second.
pub contains-memb_set_subtract :
    (x : ℕ) (one two : List ℕ)
    → contains x (memb_set_subtract one two) ≡ contains x one && not (contains x two)
unfolding contains memb_set_subtract
contains-memb_set_subtract x [] two = refl
contains-memb_set_subtract x (z ∷ one) two = ground (arith, contains-memb_set_subtract x one two)

-- memb_set_merge adds the nodes of the first set to the second, and no others.
pub contains-memb_set_merge :
    (x : ℕ) (subset fullset : List ℕ)
    → contains x (memb_set_merge subset fullset) ≡ contains x fullset || contains x subset
unfolding contains memb_set_merge
contains-memb_set_merge x [] full = ground arith
contains-memb_set_merge x (z ∷ subset) full = ground (
  arith,
  contains-memb_set_merge x subset (if contains z full then full else full ++ z ∷ []),
  contains-append x full (z ∷ []),
)

-- No node is twice in the list.
unfoldable pub is_unique : List ℕ → Bool
is_unique [] = true
is_unique (x ∷ xs) = if contains x xs then false else is_unique xs

is_unique-snoc :
    (x : ℕ) (xs : List ℕ)
    → contains x xs ≡ false
    → is_unique xs ≡ true
    → is_unique (xs ++ x ∷ []) ≡ true
unfolding contains is_unique
is_unique-snoc x [] h u = refl
is_unique-snoc x (y ∷ xs) h u = ground (arith, is_unique-snoc x xs, contains-append y xs (x ∷ []))

-- memb_set_merge into a list without a double node leaves none.
pub is_unique-memb_set_merge :
    (subset fullset : List ℕ)
    → is_unique fullset ≡ true
    → is_unique (memb_set_merge subset fullset) ≡ true
unfolding memb_set_merge
is_unique-memb_set_merge [] full u = u
is_unique-memb_set_merge (z ∷ subset) full u =
    is_unique-memb_set_merge subset (if contains z full then full else full ++ z ∷ [])
      (ground (arith, is_unique-snoc z full))
