-- ===== src/Votequorum/Requests/Device/Waiting.antt =====
-- The requests of the quorum device's client of exec/votequorum.c, and wait_for_all.
use corosync.Prelude.{ℕ, refl, if◌then◌else◌, set_flag, clear_flag, Bool, false, List, arith}
use corosync.Votequorum.State.{
  State, flag_qdevice_master_wins, mcast_qdevice_reconfigure, RingId, mcast_qdevice_reg, emit,
  our_node, our_flags,
}
use corosync.Votequorum.Quorum.{update_qdevice_master_wins}
use corosync.Votequorum.Messages.{send_nodeinfo, send_set_qdevice_extra_info}
use corosync.Votequorum.Quorum.Waiting.{
  SameWait-if, SameWait, SameWait-refl, SameWait-trans, SameWait-if_answer,
}
use corosync.Votequorum.Requests.Device.{
  qdevice_register, qdevice_unregister, qdevice_update, qdevice_poll, qdevice_set_master_wins,
  qdevice_set_extra_info, forget_device, is_ok, poll_error, accept_poll, accept_master_wins,
  polled_flags, announce_flags, stop_qdevice_timer,
}

pub SameWait-register :
    (s : State) (name : List ℕ) (mcast_ok : Bool) → SameWait s (qdevice_register s name mcast_ok).0
unfolding qdevice_register
SameWait-register s name mcast_ok = ground arith

SameWait-forget : (s : State) → SameWait s (forget_device s)
unfolding forget_device stop_qdevice_timer send_nodeinfo send_set_qdevice_extra_info
SameWait-forget s = ground arith

pub SameWait-unregister : (s : State) (name : List ℕ) → SameWait s (qdevice_unregister s name).0
unfolding qdevice_unregister
SameWait-unregister s name =
    let told : SameWait s (emit (forget_device s) (mcast_qdevice_reg false name)) =
      SameWait-trans s (forget_device s) _ (SameWait-forget s) (refl, refl, refl) in
    search (SameWait-if_answer, SameWait-refl, told)

SameWait-announce_flags : (s : State) (oldflags : ℕ) → SameWait s (announce_flags s oldflags)
unfolding announce_flags send_nodeinfo
SameWait-announce_flags s oldflags = ground arith

SameWait-announced :
    (s : State) (f : ℕ → ℕ) (oldflags : ℕ) → SameWait s (announce_flags (our_flags s f) oldflags)
SameWait-announced s f oldflags =
    SameWait-trans s (our_flags s f) _ (refl, refl, refl)
      (SameWait-announce_flags (our_flags s f) oldflags)

SameWait-stop : (s : State) → SameWait s (stop_qdevice_timer s)
unfolding stop_qdevice_timer
SameWait-stop s = ground arith

SameWait-accept_poll : (s : State) (cast_vote : Bool) → SameWait s (accept_poll s cast_vote)
unfolding accept_poll
SameWait-accept_poll s cast_vote =
    let t = stop_qdevice_timer s in
    let u = announce_flags (our_flags t (polled_flags cast_vote)) (our_node t).flags in
    SameWait-trans s t (accept_poll s cast_vote) (SameWait-stop s) (
      SameWait-trans t u (accept_poll s cast_vote)
        (SameWait-announced t (polled_flags cast_vote) (our_node t).flags) (refl, refl, refl))

pub SameWait-poll :
    (s : State) (name : List ℕ) (ring_id : RingId) (cast_vote : Bool)
    → SameWait s (qdevice_poll s name ring_id cast_vote).0
unfolding qdevice_poll
SameWait-poll s name ring_id cast_vote =
    SameWait-if (is_ok (poll_error s name ring_id)) s (accept_poll s cast_vote) s
      (SameWait-accept_poll s cast_vote) (SameWait-refl s)

SameWait-accept_master_wins : (s : State) (allow : Bool) → SameWait s (accept_master_wins s allow)
unfolding accept_master_wins update_qdevice_master_wins
SameWait-accept_master_wins s allow =
    let f : ℕ → ℕ =
      if allow then set_flag flag_qdevice_master_wins else clear_flag flag_qdevice_master_wins in
    SameWait-trans s (announce_flags (our_flags s f) (our_node s).flags)
      (accept_master_wins s allow) (SameWait-announced s f (our_node s).flags) (refl, refl, refl)

pub SameWait-master_wins :
    (s : State) (name : List ℕ) (allow : Bool) → SameWait s (qdevice_set_master_wins s name allow).0
unfolding qdevice_set_master_wins
SameWait-master_wins s name allow =
    search (SameWait-if_answer, SameWait-refl, SameWait-accept_master_wins s allow)

pub SameWait-extra_info :
    (s : State) (ei_size : ℕ) → SameWait s (qdevice_set_extra_info s ei_size).0
unfolding qdevice_set_extra_info send_set_qdevice_extra_info
SameWait-extra_info s ei_size = ground arith

pub SameWait-update :
    (s : State) (oldname newname : List ℕ) → SameWait s (qdevice_update s oldname newname).0
unfolding qdevice_update
SameWait-update s oldname newname =
    let told : SameWait s (emit s (mcast_qdevice_reconfigure oldname newname)) =
      (refl, refl, refl) in
    search (SameWait-if_answer, SameWait-refl, told)
