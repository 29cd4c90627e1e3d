-- ===== src/Totemsrp/Membership/Agreement.antt =====
-- What the consensus and the choice of the representative in exec/totemsrp.c mean.
use corosync.Prelude.{
  ℕ, ◌≤◌, ◌≡◌, sym, ◌∙◌, true, false, none, some, List, [], ◌∷◌, ltb, ◌==◌, if◌then◌else◌, arith,
}
use corosync.Totemsrp.Sets.{contains, memb_set_equal}
use corosync.Totemsrp.Sets.Contents.{contains-memb_set_subtract, is_unique}
use corosync.Totemsrp.Sets.Subsets.{memb_set_equal_lem}
use corosync.Totemsrp.Membership.{
  Instance, ConsensusItem, consensus_find, all_set, token_memb, memb_consensus_agreed, lowest_from,
  memb_lowest_in_config,
}

all_set_lem :
    (items : List ConsensusItem) (xs : List ℕ) (x : ℕ)
    → all_set items xs ≡ true
    → contains x xs ≡ true
    → consensus_find items x ≡ true
unfolding all_set contains
all_set_lem items [] x h k = ground arith
all_set_lem items (y ∷ xs) x h k = ground (arith, all_set_lem items xs x)

-- When memb_consensus_agreed answers yes, consensus is set for every processor that is not failed.
pub memb_consensus_agreed_lem :
    (s : Instance) (x : ℕ)
    → memb_consensus_agreed s ≡ some true
    → contains x s.my_proc_list ≡ true
    → contains x s.my_failed_list ≡ false
    → consensus_find s.consensus_list x ≡ true
unfolding memb_consensus_agreed
memb_consensus_agreed_lem s x h p f =
    all_set_lem s.consensus_list (token_memb s) x (ground arith)
      (contains-memb_set_subtract x s.my_proc_list s.my_failed_list ∙ ground (arith, p, f))

lowest_from_le : (lowest : ℕ) (xs : List ℕ) → lowest_from lowest xs ≤ lowest
unfolding lowest_from
lowest_from_le lowest [] = omega arith
lowest_from_le lowest (x ∷ xs) =
    ground (arith, lowest_from_le (if ltb x lowest then x else lowest) xs)

lowest_from_lem :
    (lowest : ℕ) (xs : List ℕ) (x : ℕ) → contains x xs ≡ true → lowest_from lowest xs ≤ x
unfolding lowest_from contains
lowest_from_lem lowest [] x h = ground arith
lowest_from_lem lowest (y ∷ xs) x h = ground (
  arith,
  lowest_from_lem (if ltb y lowest then y else lowest) xs x,
  lowest_from_le (if ltb y lowest then y else lowest) xs,
)

lowest_of :
    (members : List ℕ) (my_id x : ℕ)
    → (elim members [ [] ↦ none | y ∷ ys ↦ some (lowest_from y ys == my_id) ]) ≡ some true
    → contains x members ≡ true
    → my_id ≤ x
unfolding contains
lowest_of [] my_id x h k = ground arith
lowest_of (y ∷ ys) my_id x h k = ground (arith, lowest_from_lem y ys x, lowest_from_le y ys)

-- When memb_lowest_in_config answers yes, no processor that is not failed has an id below ours.
pub memb_lowest_in_config_lem :
    (s : Instance) (x : ℕ)
    → memb_lowest_in_config s ≡ some true
    → contains x s.my_proc_list ≡ true
    → contains x s.my_failed_list ≡ false
    → s.my_id ≤ x
unfolding memb_lowest_in_config
memb_lowest_in_config_lem s x h p f =
    lowest_of (token_memb s) s.my_id x h
      (contains-memb_set_subtract x s.my_proc_list s.my_failed_list ∙ ground (arith, p, f))

-- Two nodes that are in their lists of processors and not in their lists of failed ones, and whose lists
-- memb_set_equal finds equal, are the same node if both take themselves for the representative. The lists of the
-- second node have no entry twice, which memb_set_merge keeps.
pub representative_unique :
    (s t : Instance)
    → memb_set_equal s.my_proc_list t.my_proc_list ≡ true
    → memb_set_equal s.my_failed_list t.my_failed_list ≡ true
    → is_unique t.my_proc_list ≡ true
    → is_unique t.my_failed_list ≡ true
    → contains s.my_id s.my_proc_list ≡ true
    → contains s.my_id s.my_failed_list ≡ false
    → contains t.my_id t.my_proc_list ≡ true
    → contains t.my_id t.my_failed_list ≡ false
    → memb_lowest_in_config s ≡ some true
    → memb_lowest_in_config t ≡ some true
    → s.my_id ≡ t.my_id
representative_unique s t p f u w sp sf tp tf a b = omega (
  arith,
  memb_lowest_in_config_lem s t.my_id a
      (memb_set_equal_lem s.my_proc_list t.my_proc_list t.my_id u p ∙ tp)
      (memb_set_equal_lem s.my_failed_list t.my_failed_list t.my_id w f ∙ tf),
  memb_lowest_in_config_lem t s.my_id b
      (sym (memb_set_equal_lem s.my_proc_list t.my_proc_list s.my_id u p) ∙ sp)
      (sym (memb_set_equal_lem s.my_failed_list t.my_failed_list s.my_id w f) ∙ sf),
)
