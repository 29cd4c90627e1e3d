-- ===== src/Votequorum/Nodes.antt =====
-- The node list of exec/votequorum.c: allocation, lookup, lowest and highest member.
pub mod Order
pub mod Extremes
mod Examples
use corosync.Prelude.{
  ℕ, ◌+◌, Bool, true, false, ◌&&◌, ◌||◌, Option, none, some, List, [], ◌∷◌, leb, ◌==◌,
  if◌then◌else◌, slt32, update, has_flag,
}
use corosync.Votequorum.State.{
  NodeState, Node, State, unset, member, dead, our_node, qdevice_nodeid, processor_count_max,
  icmap_set, emit, lowest_node_id_key, highest_node_id_key, flag_qdevice_master_wins,
  flag_qdevice_cast_vote,
}

-- node->state == NODESTATE_MEMBER
abbrev pub is_member : NodeState → Bool
is_member member = true
is_member _ = false

abbrev pub is_dead : NodeState → Bool
is_dead dead = true
is_dead _ = false

-- node_add_ordered. The loop ends at the first node with a greater id, or at the last node; in both
-- cases qb_list_add_tail puts the new node in front of the one where it ended.
pub node_add_ordered : (ℕ → Node) → ℕ → List ℕ → List ℕ
node_add_ordered nodes new [] = new ∷ []
node_add_ordered nodes new (p ∷ []) = new ∷ p ∷ []
node_add_ordered nodes new (p ∷ q ∷ rest) =
    if slt32 (nodes new).node_id (nodes p).node_id
    then new ∷ p ∷ q ∷ rest
    else p ∷ node_add_ordered nodes new (q ∷ rest)

-- The first dead node of the list, and the list without it.
unfoldable pub take_dead : (ℕ → Node) → List ℕ → Option (ℕ × List ℕ)
take_dead nodes [] = none
take_dead nodes (p ∷ rest) =
    if is_dead (nodes p).state
    then some (p, rest)
    else elim (take_dead nodes rest) [ none ↦ none | some (d, others) ↦ some (d, p ∷ others) ]

abbrev pub zeroed_node : ℕ → Node
zeroed_node nodeid = record {
  node_id = nodeid;
  state = unset;
  votes = 0;
  expected_votes = 0;
  flags = 0;
  ei_size = 0;
}

-- The end of allocate_node: memset, the id, and the list for all but the quorum device.
unfoldable pub place_node : State → ℕ → ℕ → State
place_node s p nodeid =
    let nodes = update s.cluster_nodes p (zeroed_node nodeid) in
    record s {
      cluster_nodes = nodes;
      cluster_members_list =
          if nodeid == qdevice_nodeid
          then s.cluster_members_list
          else node_add_ordered nodes p s.cluster_members_list;
    }

-- allocate_node, with the slot. In a full table without a dead node the C code unlinks the head of
-- the list, which is a fault: `none`. It can do so only past processor_count_max + 2 ids.
unfoldable pub allocate_node : State → ℕ → Option (State × ℕ)
allocate_node s nodeid =
    if leb s.cluster_nodes_entries (processor_count_max + 1)
    then some (
      place_node (record s { cluster_nodes_entries = s.cluster_nodes_entries + 1 })
          s.cluster_nodes_entries nodeid,
      s.cluster_nodes_entries,
    )
    else elim (take_dead s.cluster_nodes s.cluster_members_list) [
      | none ↦ none
      | some (p, others) ↦
          some (place_node (record s { cluster_members_list = others }) p nodeid, p)
    ]

-- The loop of find_node_by_nodeid.
unfoldable pub find_member : (ℕ → Node) → ℕ → List ℕ → Option ℕ
find_member nodes nodeid [] = none
find_member nodes nodeid (p ∷ rest) =
    if (nodes p).node_id == nodeid then some p else find_member nodes nodeid rest

-- find_node_by_nodeid
unfoldable pub find_node_by_nodeid : State → ℕ → Option ℕ
find_node_by_nodeid s nodeid =
    if nodeid == (our_node s).node_id
    then some s.us
    else if nodeid == qdevice_nodeid
    then some s.qdevice
    else find_member s.cluster_nodes nodeid s.cluster_members_list

-- The loops of get_lowest_node_id and get_highest_node_id.
unfoldable pub lowest_from : (ℕ → Node) → ℕ → List ℕ → ℕ
lowest_from nodes lowest [] = lowest
lowest_from nodes lowest (p ∷ rest) =
    lowest_from nodes
      (if is_member (nodes p).state && slt32 (nodes p).node_id lowest
        then (nodes p).node_id
        else lowest)
      rest

unfoldable pub highest_from : (ℕ → Node) → ℕ → List ℕ → ℕ
highest_from nodes highest [] = highest
highest_from nodes highest (p ∷ rest) =
    highest_from nodes
      (if is_member (nodes p).state && slt32 highest (nodes p).node_id
        then (nodes p).node_id
        else highest)
      rest

-- get_lowest_node_id
unfoldable pub get_lowest_node_id : State → State
get_lowest_node_id s =
    let lowest = lowest_from s.cluster_nodes (our_node s).node_id s.cluster_members_list in
    emit (record s { lowest_node_id = lowest }) (icmap_set lowest_node_id_key lowest)

-- get_highest_node_id
unfoldable pub get_highest_node_id : State → State
get_highest_node_id s =
    let highest = highest_from s.cluster_nodes (our_node s).node_id s.cluster_members_list in
    emit (record s { highest_node_id = highest }) (icmap_set highest_node_id_key highest)

-- Some member of the list has the id.
unfoldable pub has_member : (ℕ → Node) → ℕ → List ℕ → Bool
has_member nodes nodeid [] = false
has_member nodes nodeid (p ∷ rest) =
    is_member (nodes p).state && (nodes p).node_id == nodeid || has_member nodes nodeid rest

-- check_low_node_id_partition
unfoldable pub check_low_node_id_partition : State → Bool
check_low_node_id_partition s = has_member s.cluster_nodes s.lowest_node_id s.cluster_members_list

-- check_high_node_id_partition
unfoldable pub check_high_node_id_partition : State → Bool
check_high_node_id_partition s = has_member s.cluster_nodes s.highest_node_id s.cluster_members_list

-- The loop of check_qdevice_master.
unfoldable pub master_in : (ℕ → Node) → List ℕ → Bool
master_in nodes [] = false
master_in nodes (p ∷ rest) =
    is_member (nodes p).state
      && has_flag flag_qdevice_master_wins (nodes p).flags
      && has_flag flag_qdevice_cast_vote (nodes p).flags
    || master_in nodes rest

-- check_qdevice_master
unfoldable pub check_qdevice_master : State → Bool
check_qdevice_master s = master_in s.cluster_nodes s.cluster_members_list
