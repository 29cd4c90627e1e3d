-- ===== src/Votequorum/Requests/Device.antt =====
-- The requests of the quorum device's client, in exec/votequorum.c.
pub mod Waiting
pub mod Poll
use corosync.Prelude.{
  ℕ, ◌*◌, Bool, true, false, not, ◌&&◌, ◌||◌, Option, none, some, List, ◌==◌, if◌then◌else◌, ltb,
  has_flag, set_flag, clear_flag, strncmp_eq,
}
use corosync.Votequorum.State.{
  State, Node, RingId, our_node, our_flags, modify_node, emit, mcast_qdevice_reg,
  mcast_qdevice_reconfigure, qdevice_timer_delete, qdevice_timer_add, CsError, cs_ok, err_access,
  err_exist, err_try_again, err_invalid_param, err_not_exist, err_message_error,
  flag_qdevice_registered, flag_qdevice_alive, flag_qdevice_cast_vote, flag_qdevice_master_wins,
  flag_qdevice_extra_info_set,
}
use corosync.Votequorum.Nodes.{find_node_by_nodeid}
use corosync.Votequorum.Quorum.{update_qdevice_master_wins}
use corosync.Votequorum.Messages.{
  send_nodeinfo, send_set_qdevice_extra_info, qdevice_max_name_len, qdevice_extra_nodeinfo_maxsize,
}

abbrev pub is_registered : State → Bool
is_registered s = has_flag flag_qdevice_registered (our_node s).flags

abbrev pub is_our_device : State → List ℕ → Bool
is_our_device s name = strncmp_eq qdevice_max_name_len name s.qdevice_name

-- message_handler_req_lib_votequorum_qdevice_register: `none` is no reply before the message returns.
pub qdevice_register : State → List ℕ → Bool → State × Option CsError
qdevice_register s name mcast_ok =
    if not s.qdevice_can_operate
    then (s, some err_access)
    else if is_registered s
    then (s, some (if is_our_device s name then cs_ok else err_exist))
    else if s.qdevice_reg_conn
    then (s, some err_try_again)
    else if mcast_ok
    then (emit (record s { qdevice_reg_conn = true }) (mcast_qdevice_reg true name), none)
    else (s, some err_try_again)

-- The flags that unregister clears.
pub cleared_flags : ℕ → ℕ
cleared_flags flags = clear_flag flag_qdevice_extra_info_set (
    clear_flag flag_qdevice_master_wins (
      clear_flag flag_qdevice_cast_vote
        (clear_flag flag_qdevice_alive (clear_flag flag_qdevice_registered flags))))

pub stop_qdevice_timer : State → State
stop_qdevice_timer s =
    if s.qdevice_timer_set
    then record (emit s qdevice_timer_delete) { qdevice_timer_set = false }
    else s

-- The timer, the flags and the messages of an unregistration.
pub forget_device : State → State
forget_device s =
    let t =
      if s.qdevice_timer_set
      then record (stop_qdevice_timer s) { sync_wait_for_poll_or_timeout = false }
      else s in
    let u = modify_node t t.us (λ n. record n { flags = cleared_flags n.flags; ei_size = 0 }) in
    send_nodeinfo (send_set_qdevice_extra_info u (our_node u).node_id) (our_node u).node_id

-- message_handler_req_lib_votequorum_qdevice_unregister
pub qdevice_unregister : State → List ℕ → State × CsError
qdevice_unregister s name =
    if not (is_registered s)
    then (s, err_not_exist)
    else if not (is_our_device s name)
    then (s, err_invalid_param)
    else (emit (forget_device s) (mcast_qdevice_reg false name), cs_ok)

-- message_handler_req_lib_votequorum_qdevice_update
pub qdevice_update : State → List ℕ → List ℕ → State × CsError
qdevice_update s oldname newname =
    if not (is_registered s)
    then (s, err_not_exist)
    else if not (is_our_device s oldname)
    then (s, err_invalid_param)
    else (emit s (mcast_qdevice_reconfigure oldname newname), cs_ok)

-- Our nodeinfo goes out if our flags changed.
pub announce_flags : State → ℕ → State
announce_flags s oldflags =
    if (our_node s).flags == oldflags then s else send_nodeinfo s (our_node s).node_id

-- The flags after a poll.
pub polled_flags : Bool → ℕ → ℕ
polled_flags cast_vote flags =
    let alive = set_flag flag_qdevice_alive flags in
    if cast_vote
    then set_flag flag_qdevice_cast_vote alive
    else clear_flag flag_qdevice_cast_vote alive

-- What a poll that is accepted does.
pub accept_poll : State → Bool → State
accept_poll s cast_vote =
    let t = stop_qdevice_timer s in
    let u = announce_flags (our_flags t (polled_flags cast_vote)) (our_node t).flags in
    record (emit u (qdevice_timer_add (u.qdevice_timeout * 1000000))) {
      qdevice_timer_set = true;
      sync_wait_for_poll_or_timeout = false;
    }

-- The error of a poll.
pub poll_error : State → List ℕ → RingId → CsError
poll_error s name ring_id =
    if not s.qdevice_can_operate
    then err_access
    else if not (is_registered s)
    then err_not_exist
    else if not (ring_id.nodeid == s.quorum_ringid.nodeid && ring_id.seq == s.quorum_ringid.seq)
    then err_message_error
    else if not (is_our_device s name)
    then err_invalid_param
    else cs_ok

abbrev pub is_ok : CsError → Bool
is_ok cs_ok = true
is_ok _ = false

-- message_handler_req_lib_votequorum_qdevice_poll
unfoldable pub qdevice_poll : State → List ℕ → RingId → Bool → State × CsError
unfolding poll_error
qdevice_poll s name ring_id cast_vote = (
  if is_ok (poll_error s name ring_id) then accept_poll s cast_vote else s,
  poll_error s name ring_id,
)

-- What a master_wins request that is accepted does.
pub accept_master_wins : State → Bool → State
accept_master_wins s allow =
    let t =
      our_flags s (
        if allow then set_flag flag_qdevice_master_wins else clear_flag flag_qdevice_master_wins) in
    update_qdevice_master_wins (announce_flags t (our_node s).flags) allow

-- message_handler_req_lib_votequorum_qdevice_master_wins
pub qdevice_set_master_wins : State → List ℕ → Bool → State × CsError
qdevice_set_master_wins s name allow =
    if not s.qdevice_can_operate
    then (s, err_access)
    else if not (is_registered s)
    then (s, err_not_exist)
    else if not (is_our_device s name)
    then (s, err_invalid_param)
    else (accept_master_wins s allow, cs_ok)

-- message_handler_req_lib_votequorum_qdevice_set_extra_info, without the bytes.
pub qdevice_set_extra_info : State → ℕ → State × CsError
qdevice_set_extra_info s ei_size =
    if not s.qdevice_can_operate
    then (s, err_access)
    else if ltb qdevice_extra_nodeinfo_maxsize ei_size
    then (s, err_invalid_param)
    else if not (is_registered s)
    then (s, err_not_exist)
    else (let t = modify_node s s.us (λ n. record n {
      ei_size = ei_size;
      flags =
          if ei_size == 0
          then clear_flag flag_qdevice_extra_info_set n.flags
          else set_flag flag_qdevice_extra_info_set n.flags;
    }) in
        (send_set_qdevice_extra_info t (our_node t).node_id, cs_ok))
