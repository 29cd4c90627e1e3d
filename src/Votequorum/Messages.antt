-- ===== src/Votequorum/Messages.antt =====
-- The messages that the nodes exchange through totem, in exec/votequorum.c.
pub mod Waiting
pub mod Others
use corosync.Prelude.{
  ℕ, ◌<◌, Bool, true, false, not, ◌&&◌, ◌||◌, Option, none, some, List, [], ◌∷◌, ltb, ◌==◌,
  if◌then◌else◌, ◌>>=◌, umax, has_flag, set_flag, clear_flag, strncmp_eq, strcmp_eq, is_empty,
}
use corosync.Votequorum.State.{
  State, Node, NodeState, unset, member, dead, leaving, ReconfigParam, expected_votes_param,
  node_votes_param, cancel_wfa_param, other_param, our_node, our_flags, modify_node, emit,
  expectedvotes_notification, mcast_nodeinfo, mcast_extra_info, qdevice_reg_response,
  lms_timer_delete, cs_ok, err_exist, qdevice_nodeid, flag_quorate, flag_leaving, flag_wfastatus,
  flag_first, flag_qdevice_registered, flag_qdevice_extra_info_set,
}
use corosync.Votequorum.Nodes.{is_member, find_node_by_nodeid, allocate_node}
use corosync.Votequorum.Quorum.{
  update_wait_for_all_status, update_ev_barrier, update_node_expected_votes, recalculate_quorum,
}

-- The values of the enum, 0 for zeroed memory.
abbrev pub state_number : NodeState → ℕ
state_number unset = 0
state_number member = 1
state_number dead = 2
state_number leaving = 3

abbrev pub qdevice_max_name_len : ℕ
qdevice_max_name_len = 255

abbrev pub qdevice_extra_nodeinfo_maxsize : ℕ
qdevice_extra_nodeinfo_maxsize = 4096

-- votequorum_exec_send_nodeinfo
unfoldable pub send_nodeinfo : State → ℕ → State
send_nodeinfo s nodeid = elim (find_node_by_nodeid s nodeid) [
  | none ↦ s
  | some p ↦ emit s (
      mcast_nodeinfo nodeid (s.cluster_nodes p).votes (s.cluster_nodes p).expected_votes
        (s.cluster_nodes p).flags)
]

-- votequorum_exec_send_set_qdevice_extra_info; the output holds the size that is sent.
unfoldable pub send_set_qdevice_extra_info : State → ℕ → State
send_set_qdevice_extra_info s nodeid = elim (find_node_by_nodeid s nodeid) [
  | none ↦ s
  | some p ↦ emit s (
      mcast_extra_info (
        if has_flag flag_qdevice_extra_info_set (s.cluster_nodes p).flags
        then (s.cluster_nodes p).ei_size
        else 0))
]

-- struct req_exec_quorum_nodeinfo
pub record Nodeinfo : Type 0 where
  pub nodeid : ℕ
  pub votes : ℕ
  pub expected_votes : ℕ
  pub flags : ℕ

-- The node that a message is about, as found or allocated, and what it was before.
pub record Located : Type 0 where
  pub after : State
  pub slot : ℕ
  pub new_node : Bool
  pub old : Node

abbrev pub unknown_node : Node
unknown_node = record {
  node_id = 0;
  state = dead;
  votes = 0;
  expected_votes = 0;
  flags = 0;
  ei_size = 0;
}

pub locate : State → ℕ → Option Located
locate s nodeid = elim (find_node_by_nodeid s nodeid) [
  | some p ↦ some (record { after = s; slot = p; new_node = false; old = s.cluster_nodes p })
  | none ↦ allocate_node s nodeid >>= λ (t, p).
      some (record { after = t; slot = p; new_node = true; old = unknown_node })
]

-- The votes of the quorum device, from a message of the node in slot q.
pub set_qdevice_votes : State → ℕ → ℕ → Nodeinfo → State
set_qdevice_votes s p q msg = modify_node s p (λ n. record n {
  votes =
      if not s.cluster_is_quorate && has_flag flag_quorate (s.cluster_nodes q).flags
      then msg.votes
      else umax n.votes msg.votes;
})

-- The branch for the quorum device; an unknown sender fails the assertion.
pub store_qdevice : State → ℕ → Nodeinfo → ℕ → Option State
store_qdevice s p msg sender_nodeid =
    find_node_by_nodeid s sender_nodeid >>= λ q. some (set_qdevice_votes s p q msg)

-- Whether the message lets an inquorate node take over the sender's expected votes.
abbrev pub joins_quorate : State → Nodeinfo → Bool
joins_quorate s msg = not s.cluster_is_quorate && has_flag flag_quorate msg.flags

-- The branch for a node: flags, votes, state, then the expected votes of `us` and of the node.
pub store_member : State → ℕ → Nodeinfo → State
store_member s p msg =
    let a = modify_node s p (λ n. record n {
      flags = msg.flags;
      votes = msg.votes;
      state = if has_flag flag_leaving msg.flags then leaving else member;
    }) in
    let b =
      if joins_quorate s msg
      then modify_node a a.us (λ n. record n { expected_votes = msg.expected_votes })
      else a in
    modify_node b p (λ n. record n {
      expected_votes =
          if has_flag flag_quorate msg.flags || b.ev_tracking
          then msg.expected_votes
          else (our_node b).expected_votes;
    })

stop_last_man_standing : State → State
stop_last_man_standing s =
    if s.last_man_standing_timer_set
    then emit (record s { last_man_standing_timer_set = false }) lms_timer_delete
    else s

-- Last man standing is given up when a node has more than one vote.
pub check_last_man_standing : State → ℕ → State
unfolding stop_last_man_standing
check_last_man_standing s p =
    if s.last_man_standing && ltb 1 (s.cluster_nodes p).votes
    then stop_last_man_standing (record s { last_man_standing = false })
    else s

-- The test at the label `recalculate`.
pub needs_recalculation : State → Located → ℕ → Bool
needs_recalculation s l nodeid =
    let n = s.cluster_nodes l.slot in
    l.new_node
    || nodeid == (our_node s).node_id
    || has_flag flag_first n.flags
    || not (l.old.votes == n.votes)
    || not (l.old.expected_votes == n.expected_votes)
    || not (l.old.flags == n.flags)
    || not (state_number l.old.state == state_number n.state)

-- The end of the handler: a quorate node that no longer waits ends our waiting.
pub stop_waiting : State → ℕ → State
stop_waiting s p =
    if s.wait_for_all
      && not (has_flag flag_wfastatus (s.cluster_nodes p).flags)
      && has_flag flag_quorate (s.cluster_nodes p).flags
    then update_wait_for_all_status s false
    else s

-- The handler from the label `recalculate` on.
pub after_nodeinfo : State → Located → ℕ → Bool → Bool → Option State
after_nodeinfo s l nodeid allow_downgrade by_node =
    (if needs_recalculation s l nodeid
      then recalculate_quorum s allow_downgrade by_node
      else some s)
    >>= λ t. some (stop_waiting t l.slot)

-- message_handler_req_exec_votequorum_nodeinfo; `none` is a failed assertion.
pub nodeinfo_handler : State → Nodeinfo → ℕ → Option State
nodeinfo_handler s msg sender_nodeid = locate s msg.nodeid >>= λ l.
    if msg.nodeid == qdevice_nodeid
    then (store_qdevice l.after l.slot msg sender_nodeid >>= λ t.
        after_nodeinfo t l msg.nodeid false false)
    else after_nodeinfo (check_last_man_standing (store_member l.after l.slot msg) l.slot) l
        msg.nodeid (has_flag flag_leaving msg.flags || joins_quorate l.after msg)
        (has_flag flag_leaving msg.flags)

-- message_handler_req_exec_votequorum_reconfigure
pub reconfigure_handler : State → ReconfigParam → ℕ → ℕ → Option State
reconfigure_handler s expected_votes_param nodeid value =
    let t = update_node_expected_votes s value in
    let u =
      update_ev_barrier (emit t (expectedvotes_notification (our_node t).expected_votes)) value in
    recalculate_quorum
      (if u.ev_tracking
        then modify_node u u.us
            (λ n. record n { expected_votes = umax n.expected_votes u.ev_tracking_barrier })
        else u)
      true false
reconfigure_handler s node_votes_param nodeid value = elim (find_node_by_nodeid s nodeid) [
  | none ↦ some s
  | some p ↦ recalculate_quorum (modify_node s p (λ n. record n { votes = value })) true false
]
reconfigure_handler s cancel_wfa_param nodeid value =
    recalculate_quorum (update_wait_for_all_status s false) false false
reconfigure_handler s other_param nodeid value = some s

-- message_handler_req_exec_votequorum_qdevice_reconfigure
pub qdevice_reconfigure_handler : State → List ℕ → List ℕ → State
qdevice_reconfigure_handler s oldname newname =
    if strcmp_eq oldname s.qdevice_name then record s { qdevice_name = newname } else s

-- The device is ours: the flag is set and the cluster is told.
pub mark_registered : State → State
mark_registered s =
    let t = our_flags s (set_flag flag_qdevice_registered) in
    send_nodeinfo (send_nodeinfo t qdevice_nodeid) (our_node t).node_id

-- The first name that is heard of is the name of the device.
pub record_name : State → List ℕ → State
record_name s name = if is_empty s.qdevice_name then record s { qdevice_name = name } else s

-- The registration of our own device.
pub register_own : State → List ℕ → State
register_own s name =
    let t = record_name s name in
    let same = strncmp_eq qdevice_max_name_len name t.qdevice_name in
    record (emit (if same then mark_registered t else t)
      (qdevice_reg_response (if same then cs_ok else err_exist))) { qdevice_reg_conn = false }

-- Some member still has a registered device.
pub device_in_use : (ℕ → Node) → List ℕ → Bool
device_in_use nodes [] = false
device_in_use nodes (p ∷ rest) =
    is_member (nodes p).state && has_flag flag_qdevice_registered (nodes p).flags
    || device_in_use nodes rest

-- message_handler_req_exec_votequorum_qdevice_reg; the Boolean is the operation, true to register.
pub qdevice_reg_handler : State → Bool → List ℕ → ℕ → State
qdevice_reg_handler s true name nodeid =
    if not (nodeid == (our_node s).node_id)
    then record_name s name
    else if has_flag flag_qdevice_registered (our_node s).flags || not s.qdevice_reg_conn
    then s
    else register_own s name
qdevice_reg_handler s false name nodeid =
    if device_in_use s.cluster_nodes s.cluster_members_list
    then s
    else record s { qdevice_name = [] }

-- message_handler_req_exec_votequorum_qdevice_set_extra_info, without the bytes.
pub set_extra_info_handler : State → ℕ → ℕ → State
set_extra_info_handler s ei_size nodeid =
    if ltb qdevice_extra_nodeinfo_maxsize ei_size then s else elim (find_node_by_nodeid s nodeid) [
      | none ↦ s
      | some p ↦ modify_node s p (λ n. record n {
        ei_size = ei_size;
        flags =
            if ei_size == 0
            then clear_flag flag_qdevice_extra_info_set n.flags
            else set_flag flag_qdevice_extra_info_set n.flags;
      })
    ]
