-- ===== src/Votequorum/Sync.antt =====
-- The synchronisation after a membership change and the timers, in exec/votequorum.c.
pub mod Waiting
use corosync.Prelude.{
  ℕ, ◌*◌, ◌≤◌, Bool, true, false, not, ◌&&◌, ◌||◌, Option, none, some, List, [], ◌∷◌, leb, ltb,
  ◌==◌, if◌then◌else◌, ◌>>=◌, length, has_flag, clear_flag, is_empty, update,
}
use corosync.Votequorum.State.{
  State, Node, RingId, dead, our_node, our_flags, modify_node, emit, quorum_callback,
  quorum_notification, nodelist_notification, mcast_qdevice_reg, lms_timer_delete, lms_timer_add,
  qdevice_timer_delete, qdevice_timer_add, qdevice_nodeid, flag_first, flag_qdevice_registered,
  flag_qdevice_alive, flag_qdevice_cast_vote, flag_qdevice_extra_info_set,
}
use corosync.Votequorum.Nodes.{find_node_by_nodeid, check_low_node_id_partition}
use corosync.Votequorum.TieBreaker.{is_in_nodelist}
use corosync.Votequorum.Quorum.{has_tie_breaker, recalculate_quorum}
use corosync.Votequorum.Messages.{send_nodeinfo, send_set_qdevice_extra_info}

-- votequorum_last_man_standing_timer_fn
pub last_man_standing_timer_fn : State → Option State
last_man_standing_timer_fn s =
    let t = record s { last_man_standing_timer_set = false } in
    if t.cluster_is_quorate then recalculate_quorum t true true else some t

-- qdevice_timer_fn
pub qdevice_timer_fn : State → State
qdevice_timer_fn s =
    if not (has_flag flag_qdevice_alive (our_node s).flags) || not s.qdevice_timer_set
    then s
    else let t =
        our_flags (our_flags s (clear_flag flag_qdevice_alive))
          (clear_flag flag_qdevice_cast_vote) in
      record (send_nodeinfo t (our_node t).node_id) {
        qdevice_timer_set = false;
        sync_wait_for_poll_or_timeout = false;
      }

-- A member that left is dead, if it is known.
pub mark_dead : State → ℕ → State
mark_dead s nodeid = elim (find_node_by_nodeid s nodeid) [
  | none ↦ s
  | some p ↦ modify_node s p (λ n. record n { state = dead })
]

-- The loop of votequorum_sync_init: members that are not in the new list are dead.
pub mark_left : State → List ℕ → List ℕ → State × Bool
mark_left s [] member_list = (s, false)
mark_left s (m ∷ members) member_list =
    let found = is_in_nodelist m member_list in
    let (t, left) = mark_left (if found then s else mark_dead s m) members member_list in
    (t, not found || left)

-- The timer of last_man_standing.
pub start_last_man_standing : State → ℕ → Bool → State
start_last_man_standing s member_list_entries left_nodes =
    if s.last_man_standing
      && (leb s.quorum member_list_entries && left_nodes
          || leb member_list_entries s.quorum
            && has_tie_breaker s.auto_tie_breaker
            && check_low_node_id_partition s)
    then (let t =
          if s.last_man_standing_timer_set
          then emit (record s { last_man_standing_timer_set = false }) lms_timer_delete
          else s in
        record (emit t (lms_timer_add (t.last_man_standing_window * 1000000))) {
          last_man_standing_timer_set = true;
        })
    else s

-- The end of votequorum_sync_init: wait for the quorum device.
pub wait_for_device : State → State
wait_for_device s =
    if has_flag flag_qdevice_registered (our_node s).flags
      && has_flag flag_qdevice_alive (our_node s).flags
    then (let t = if s.qdevice_timer_set then emit s qdevice_timer_delete else s in
        record (emit t (qdevice_timer_add (t.qdevice_sync_timeout * 1000000))) {
          qdevice_timer_set = true;
          sync_wait_for_poll_or_timeout = true;
        })
    else s

-- votequorum_sync_init
pub sync_init : State → List ℕ → RingId → State
sync_init s member_list ring_id =
    let a = record s {
      sync_in_progress = true;
      sync_nodeinfo_sent = false;
      sync_wait_for_poll_or_timeout = false;
    } in
    let b = if ltb 1 (length member_list) then our_flags a (clear_flag flag_first) else a in
    let (c, left_nodes) = mark_left b b.quorum_members member_list in
    let d = start_last_man_standing c (length member_list) left_nodes in
    wait_for_device (record d {
      previous_quorum_members = d.quorum_members;
      quorum_members = member_list;
      quorum_ringid = ring_id;
    })

-- What votequorum_sync_process sends once for each synchronisation.
pub send_once : State → State
send_once s =
    if s.sync_nodeinfo_sent
    then s
    else let a = send_nodeinfo s (our_node s).node_id in
      let b =
        if has_flag flag_qdevice_extra_info_set (our_node a).flags
        then send_set_qdevice_extra_info a (our_node a).node_id
        else a in
      let c = send_nodeinfo b qdevice_nodeid in
      let d =
        if is_empty c.qdevice_name then c else emit c (mcast_qdevice_reg true c.qdevice_name) in
      record (emit d nodelist_notification) { sync_nodeinfo_sent = true }

-- votequorum_sync_process; the Boolean tells whether it is done, so false is the -1 of the source.
pub sync_process : State → State × Bool
sync_process s =
    let t = send_once s in
    (
      t,
      not (has_flag flag_qdevice_registered (our_node t).flags && t.sync_wait_for_poll_or_timeout),
    )

-- The end of votequorum_sync_activate.
pub announce_quorum : State → State
announce_quorum s =
    record (emit (emit s (quorum_callback s.quorum_members s.quorum_ringid s.cluster_is_quorate))
      quorum_notification) { sync_in_progress = false }

-- votequorum_sync_activate
pub sync_activate : State → Option State
sync_activate s = recalculate_quorum s false false >>= λ t. some (announce_quorum t)
