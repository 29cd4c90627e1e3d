-- ===== src/Votequorum/Requests/Device/Poll.antt =====
-- A poll of the quorum device in exec/votequorum.c.
use corosync.Prelude.{ℕ, ◌≡◌, refl, Bool, true, false, List, arith, has_flag, if◌then◌else◌}
use corosync.Votequorum.State.{
  State, RingId, our_node, cs_ok, flag_qdevice_alive, flag_qdevice_cast_vote,
}
use corosync.Votequorum.Messages.{send_nodeinfo}
use corosync.Votequorum.Requests.Device.{
  is_ok, poll_error, qdevice_poll, accept_poll, stop_qdevice_timer, announce_flags, polled_flags,
}

polled_flags_alive :
    (cast_vote : Bool) (flags : ℕ)
    → has_flag flag_qdevice_alive (polled_flags cast_vote flags) ≡ true
unfolding polled_flags
polled_flags_alive cast_vote flags = ground arith

polled_flags_vote :
    (cast_vote : Bool) (flags : ℕ)
    → has_flag flag_qdevice_cast_vote (polled_flags cast_vote flags) ≡ cast_vote
unfolding polled_flags
polled_flags_vote cast_vote flags = ground arith

our_node-accept_poll :
    (s : State) (cast_vote : Bool)
    → (our_node (accept_poll s cast_vote)).flags ≡ polled_flags cast_vote (our_node s).flags
unfolding accept_poll stop_qdevice_timer announce_flags send_nodeinfo
our_node-accept_poll s cast_vote = ground arith

accept_poll_waits :
    (s : State) (cast_vote : Bool) → (accept_poll s cast_vote).sync_wait_for_poll_or_timeout ≡ false
unfolding accept_poll
accept_poll_waits s cast_vote = refl

poll_error_ok :
    (s : State) (name : List ℕ) (ring_id : RingId)
    → poll_error s name ring_id ≡ cs_ok
    → (ring_id.nodeid ≡ s.quorum_ringid.nodeid) × (ring_id.seq ≡ s.quorum_ringid.seq)
unfolding poll_error
poll_error_ok s name ring_id e = ground arith

accepted :
    (s : State) (name : List ℕ) (ring_id : RingId) (cast_vote : Bool)
    → poll_error s name ring_id ≡ cs_ok
    → (if is_ok (poll_error s name ring_id) then accept_poll s cast_vote else s)
      ≡ accept_poll s cast_vote
accepted s name ring_id cast_vote e = rw e

-- A poll that is answered by CS_OK is for the ring of the last synchronisation; it marks our device
-- alive, records the vote that it casts, and ends the wait of the synchronisation.
pub qdevice_poll_accepts :
    (s : State) (name : List ℕ) (ring_id : RingId) (cast_vote : Bool)
    → (qdevice_poll s name ring_id cast_vote).1 ≡ cs_ok
    → let t = (qdevice_poll s name ring_id cast_vote).0 in
      (ring_id.nodeid ≡ s.quorum_ringid.nodeid)
      × (ring_id.seq ≡ s.quorum_ringid.seq)
      × (has_flag flag_qdevice_alive (our_node t).flags ≡ true)
      × (has_flag flag_qdevice_cast_vote (our_node t).flags ≡ cast_vote)
      × (t.sync_wait_for_poll_or_timeout ≡ false)
unfolding qdevice_poll
qdevice_poll_accepts s name ring_id cast_vote e =
    let (n, q) = poll_error_ok s name ring_id e in
    let flags = our_node-accept_poll s cast_vote in
    (
      n,
      q,
      rw (e, flags) (polled_flags_alive cast_vote (our_node s).flags),
      rw (e, flags) (polled_flags_vote cast_vote (our_node s).flags),
      rw e (accept_poll_waits s cast_vote),
    )
