-- ===== src/Votequorum/TieBreaker.antt =====
-- The auto tie breaker of exec/votequorum.c.
pub mod Exclusion
mod Examples
use corosync.Prelude.{ℕ, ◌+◌, Bool, true, false, List, [], ◌∷◌, ◌++◌, ◌==◌, if◌then◌else◌}
use corosync.Votequorum.State.{State, AutoTieBreaker, atb_none, atb_lowest, atb_highest, atb_list}
use corosync.Votequorum.Nodes.{check_low_node_id_partition, check_high_node_id_partition}

-- is_in_nodelist
unfoldable pub is_in_nodelist : ℕ → List ℕ → Bool
is_in_nodelist nodeid [] = false
is_in_nodelist nodeid (m ∷ members) = if nodeid == m then true else is_in_nodelist nodeid members

-- The inner loop: some predecessor was in the previous partition.
unfoldable pub any_in_nodelist : List ℕ → List ℕ → Bool
any_in_nodelist [] members = false
any_in_nodelist (p ∷ ps) members =
    if is_in_nodelist p members then true else any_in_nodelist ps members

-- The outer loop, with the predecessors that it has passed.
unfoldable pub atb_list_from : List ℕ → List ℕ → List ℕ → List ℕ → Bool
atb_list_from passed [] members previous = false
atb_list_from passed (n ∷ rest) members previous =
    let next = atb_list_from (passed ++ n ∷ []) rest members previous in
    if is_in_nodelist n members
    then (if any_in_nodelist passed previous then false else true)
    else next

-- check_auto_tie_breaker: atb_none takes the path of the list, as the C code would.
unfoldable pub check_auto_tie_breaker : State → Bool
check_auto_tie_breaker s = elim s.auto_tie_breaker [
  | atb_lowest ↦ check_low_node_id_partition s
  | atb_highest ↦ check_high_node_id_partition s
  | _ ↦ atb_list_from [] s.atb_nodelist s.quorum_members s.previous_quorum_members
]
