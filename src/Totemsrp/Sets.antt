-- ===== src/Totemsrp/Sets.antt =====
-- The set operations of the membership algorithm of exec/totemsrp.c. A set is the list of the node ids
-- of an array of struct srp_addr, whose only field is `nodeid`.
pub mod Contents
pub mod Subsets
mod Examples
use corosync.Prelude.{
  ℕ, Bool, true, false, not, ◌&&◌, ◌||◌, List, [], ◌∷◌, ◌++◌, ltb, ◌==◌, if◌then◌else◌, length,
  Option, none, some,
}

-- The search for a node with srp_addr_equal.
unfoldable pub contains : ℕ → List ℕ → Bool
contains nodeid [] = false
contains nodeid (x ∷ xs) = if nodeid == x then true else contains nodeid xs

-- memb_set_subtract
unfoldable pub memb_set_subtract : List ℕ → List ℕ → List ℕ
memb_set_subtract [] two = []
memb_set_subtract (x ∷ one) two =
    let rest = memb_set_subtract one two in if contains x two then rest else x ∷ rest

-- All of the second set are found in the first: the loops of memb_set_equal and memb_set_subset.
unfoldable pub all_contained : List ℕ → List ℕ → Bool
all_contained [] full = true
all_contained (x ∷ xs) full = if contains x full then all_contained xs full else false

-- memb_set_equal
unfoldable pub memb_set_equal : List ℕ → List ℕ → Bool
memb_set_equal set1 set2 = if length set1 == length set2 then all_contained set2 set1 else false

-- memb_set_subset
unfoldable pub memb_set_subset : List ℕ → List ℕ → Bool
memb_set_subset subset fullset =
    if ltb (length fullset) (length subset) then false else all_contained subset fullset

-- memb_set_merge: the new `fullset`
unfoldable pub memb_set_merge : List ℕ → List ℕ → List ℕ
memb_set_merge [] fullset = fullset
memb_set_merge (x ∷ subset) fullset =
    memb_set_merge subset (if contains x fullset then fullset else fullset ++ x ∷ [])
