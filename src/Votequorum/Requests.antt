-- ===== src/Votequorum/Requests.antt =====
-- The requests of local clients, in exec/votequorum.c. A handler returns the new state and the error
-- of its reply. Whether totem takes a multicast is given by `mcast_ok` where the code looks at it.
pub mod Device
pub mod Waiting
pub mod Checks
mod Examples
use corosync.Prelude.{
  ℕ, ◌/◌, Bool, true, false, not, ◌&&◌, ◌||◌, Option, none, some, List, ◌∷◌, [], ltb, ◌==◌,
  if◌then◌else◌, umax, add32, has_flag, update,
}
use corosync.Votequorum.State.{
  State, Node, NodeState, expected_votes_param, node_votes_param, our_node, modify_node, emit,
  mcast_reconfigure, CsError, cs_ok, err_invalid_param, err_not_exist, err_name_not_found,
  err_no_resources, qdevice_nodeid, flag_qdevice_cast_vote,
}
use corosync.Votequorum.Nodes.{find_node_by_nodeid}
use corosync.Votequorum.Quorum.{
  Tally, tally, calculate_quorum, update_node_expected_votes, has_tie_breaker,
}

-- struct res_lib_votequorum_getinfo; the flags for the features are Booleans.
pub record Info : Type 0 where
  pub nodeid : ℕ
  pub state : NodeState
  pub votes : ℕ
  pub expected_votes : ℕ
  pub highest_expected : ℕ
  pub total_votes : ℕ
  pub quorum : ℕ
  pub is_two_node : Bool
  pub is_quorate : Bool
  pub is_wait_for_all : Bool
  pub is_last_man_standing : Bool
  pub is_auto_tie_breaker : Bool
  pub is_allow_downscale : Bool
  pub qdevice_name : List ℕ
  pub qdevice_votes : ℕ
  pub qdevice_flags : ℕ

-- The reply of getinfo for the node in a slot.
pub info_of : State → ℕ → Info
info_of s p =
    let n = s.cluster_nodes p in
    let t =
      tally s.cluster_nodes (record { total_votes = 0; highest_expected = 0; total_nodes = 0 })
        s.cluster_members_list in
    record {
      nodeid = n.node_id;
      state = n.state;
      votes = n.votes;
      expected_votes = n.expected_votes;
      highest_expected = t.highest_expected;
      total_votes =
          if has_flag flag_qdevice_cast_vote n.flags
          then add32 t.total_votes (s.cluster_nodes s.qdevice).votes
          else t.total_votes;
      quorum = s.quorum;
      is_two_node = s.two_node;
      is_quorate = s.cluster_is_quorate;
      is_wait_for_all = s.wait_for_all;
      is_last_man_standing = s.last_man_standing;
      is_auto_tie_breaker = has_tie_breaker s.auto_tie_breaker;
      is_allow_downscale = s.allow_downscale;
      qdevice_name = s.qdevice_name;
      qdevice_votes = (s.cluster_nodes s.qdevice).votes;
      qdevice_flags = n.flags;
    }

-- message_handler_req_lib_votequorum_getinfo: `none` is CS_ERR_NOT_EXIST.
pub getinfo : State → ℕ → Option Info
getinfo s nodeid =
    elim (find_node_by_nodeid s
      (if nodeid == qdevice_nodeid then (our_node s).node_id else nodeid)) [
        | none ↦ none
        | some p ↦ some (info_of s p)
      ]

-- The quorum that setexpected tries: allow_downscale is off for the calculation.
pub tried_quorum : State → ℕ → ℕ × ℕ
tried_quorum s expected_votes =
    calculate_quorum (record s { allow_downscale = false }) true expected_votes

-- message_handler_req_lib_votequorum_setexpected
pub setexpected : State → ℕ → Bool → State × CsError
setexpected s expected_votes mcast_ok =
    let (newquorum, total_votes) = tried_quorum s expected_votes in
    if ltb expected_votes total_votes || s.cluster_is_quorate && ltb total_votes newquorum
    then (s, err_invalid_param)
    else (let t = update_node_expected_votes s expected_votes in
        if mcast_ok
        then (
          emit t (mcast_reconfigure expected_votes_param (our_node t).node_id expected_votes),
          cs_ok,
        )
        else (t, err_no_resources))

-- message_handler_req_lib_votequorum_setvotes
pub setvotes : State → ℕ → ℕ → Bool → State × CsError
setvotes s nodeid votes mcast_ok = elim (find_node_by_nodeid s nodeid) [
  | none ↦ (s, err_name_not_found)
  | some p ↦
      (let t = modify_node s p (λ n. record n { votes = votes }) in
        let (newquorum, total_votes) = calculate_quorum t true 0 in
        if ltb newquorum (total_votes / 2) || ltb total_votes newquorum
        then (
          modify_node t p (λ n. record n { votes = (s.cluster_nodes p).votes }),
          err_invalid_param,
        )
        else if mcast_ok
        then (emit t (mcast_reconfigure node_votes_param nodeid votes), cs_ok)
        else (t, err_no_resources))
]
