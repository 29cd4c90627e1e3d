-- ===== src/Totemsrp/Sets/Examples.antt =====
-- The set operations of exec/totemsrp.c at concrete lists.
use corosync.Prelude.{◌≡◌, refl, [], ◌∷◌}
use corosync.Totemsrp.Sets.{contains, all_contained, memb_set_equal}
use corosync.Totemsrp.Sets.Contents.{is_unique}
use corosync.Totemsrp.Sets.Subsets.{memb_set_equal_lem}

memb_set_equal_lem_example : contains 2 (2 ∷ 1 ∷ []) ≡ contains 2 (1 ∷ 2 ∷ [])
unfolding is_unique contains memb_set_equal all_contained
memb_set_equal_lem_example = memb_set_equal_lem (2 ∷ 1 ∷ []) (1 ∷ 2 ∷ []) 2 refl refl
