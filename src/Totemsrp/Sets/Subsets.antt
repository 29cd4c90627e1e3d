-- ===== src/Totemsrp/Sets/Subsets.antt =====
-- memb_set_subset and memb_set_equal of exec/totemsrp.c, which compare the lengths, as tests of sets.
use corosync.Prelude.{
  ℕ, suc, ◌≤◌, ◌≡◌, refl, true, false, List, [], ◌∷◌, ◌==◌, if◌then◌else◌, arith, length,
}
use corosync.Totemsrp.Sets.{contains, all_contained, memb_set_equal, memb_set_subset}
use corosync.Totemsrp.Sets.Contents.{is_unique}

-- The list without its first entry of a node.
unfoldable without : ℕ → List ℕ → List ℕ
without x [] = []
without x (y ∷ ys) = let rest = without x ys in if x == y then ys else y ∷ rest

length-without :
    (x : ℕ) (ys : List ℕ) → contains x ys ≡ true → suc (length (without x ys)) ≡ length ys
unfolding contains without
length-without x [] h = ground arith
length-without x (y ∷ ys) h = ground (arith, length-without x ys)

contains-without :
    (z x : ℕ) (ys : List ℕ)
    → contains z ys ≡ true
    → (z == x) ≡ false
    → contains z (without x ys) ≡ true
unfolding contains without
contains-without z x [] h n = h
contains-without z x (y ∷ ys) h n = ground (arith, contains-without z x ys)

all_contained-without :
    (xs : List ℕ) (x : ℕ) (ys : List ℕ)
    → contains x xs ≡ false
    → all_contained xs ys ≡ true
    → all_contained xs (without x ys) ≡ true
unfolding contains all_contained
all_contained-without [] x ys n h = refl
all_contained-without (z ∷ xs) x ys n h =
    ground (arith, all_contained-without xs x ys, contains-without z x ys)

-- A list without a double node fits into a list that has all its nodes.
length-all_contained :
    (xs ys : List ℕ) → is_unique xs ≡ true → all_contained xs ys ≡ true → length xs ≤ length ys
unfolding is_unique all_contained
length-all_contained [] ys u h = omega arith
length-all_contained (x ∷ xs) ys u h = ground (
  arith,
  length-without x ys,
  all_contained-without xs x ys,
  length-all_contained xs (without x ys),
)

-- memb_set_subset answers whether the second set has all nodes of the first, if the first has none twice:
-- then the test of the lengths never decides.
pub memb_set_subset_lem :
    (subset fullset : List ℕ)
    → is_unique subset ≡ true
    → memb_set_subset subset fullset ≡ all_contained subset fullset
unfolding memb_set_subset
memb_set_subset_lem subset fullset u = ground (arith, length-all_contained subset fullset u)

contains-all_contained :
    (xs ys : List ℕ) (x : ℕ)
    → all_contained xs ys ≡ true
    → contains x xs ≡ true
    → contains x ys ≡ true
unfolding contains all_contained
contains-all_contained [] ys x h k = ground arith
contains-all_contained (z ∷ xs) ys x h k = ground (arith, contains-all_contained xs ys x)

-- Two lists that memb_set_equal calls equal have the same nodes, if the second has none twice.
pub memb_set_equal_lem :
    (set1 set2 : List ℕ) (x : ℕ)
    → is_unique set2 ≡ true
    → memb_set_equal set1 set2 ≡ true
    → contains x set1 ≡ contains x set2
unfolding memb_set_equal
memb_set_equal_lem set1 set2 x w h = ground (
  arith,
  contains-all_contained set2 set1 x,
  all_contained-without set2 x set1,
  length-all_contained set2 (without x set1) w,
  length-without x set1,
)
