-- ===== src/Votequorum/Sync/Waiting.antt =====
-- The synchronisation and the timers of exec/votequorum.c, and the assertion of are_we_quorate.
use corosync.Prelude.{
  ℕ, refl, Bool, true, false, List, [], ◌∷◌, inl, inr, arith, Bool-cases, if◌then◌else◌,
}
use corosync.Votequorum.State.{State, RingId}
use corosync.Votequorum.Quorum.Waiting.{
  WaitsInquorate, SameWait, SameWait-WaitsInquorate, Safely, recalculate_quorum-Safely,
}
use corosync.Votequorum.Messages.{send_nodeinfo, send_set_qdevice_extra_info}
use corosync.Votequorum.TieBreaker.{is_in_nodelist}
use corosync.Votequorum.Sync.{
  last_man_standing_timer_fn, qdevice_timer_fn, mark_dead, mark_left, start_last_man_standing,
  wait_for_device, sync_init, send_once, sync_process, announce_quorum, sync_activate,
}

pub SameWait-qdevice_timer_fn : (s : State) → SameWait s (qdevice_timer_fn s)
unfolding qdevice_timer_fn send_nodeinfo
SameWait-qdevice_timer_fn s = ground arith

SameWait-mark_dead : (s : State) (nodeid : ℕ) → SameWait s (mark_dead s nodeid)
unfolding mark_dead
SameWait-mark_dead s nodeid = ground arith

SameWait-mark_left :
    (s : State) (members member_list : List ℕ) → SameWait s (mark_left s members member_list).0
unfolding mark_left
SameWait-mark_left s [] member_list = (refl, refl, refl)
SameWait-mark_left s (m ∷ members) member_list = ground (
  arith,
  SameWait-mark_dead s m,
  SameWait-mark_left (if is_in_nodelist m member_list then s else mark_dead s m) members
      member_list,
)

SameWait-start :
    (s : State) (entries : ℕ) (left : Bool) → SameWait s (start_last_man_standing s entries left)
unfolding start_last_man_standing
SameWait-start s entries left = ground arith

SameWait-wait_for_device : (s : State) → SameWait s (wait_for_device s)
unfolding wait_for_device
SameWait-wait_for_device s = ground arith

pub SameWait-sync_init :
    (s : State) (member_list : List ℕ) (ring_id : RingId)
    → SameWait s (sync_init s member_list ring_id)
unfolding sync_init
SameWait-sync_init s member_list ring_id =
    grind (arith, SameWait-wait_for_device, SameWait-start, SameWait-mark_left)

pub SameWait-sync_process : (s : State) → SameWait s (sync_process s).0
unfolding sync_process send_once send_nodeinfo send_set_qdevice_extra_info
SameWait-sync_process s = ground arith

SameWait-announce : (s : State) → SameWait s (announce_quorum s)
unfolding announce_quorum
SameWait-announce s = (refl, refl, refl)

pub sync_activate-Safely : (s : State) → WaitsInquorate s → Safely (sync_activate s)
unfolding sync_activate
sync_activate-Safely s h =
    let (t, e, k) = recalculate_quorum-Safely s false false h in
    (
      announce_quorum t,
      rw (e, sync_activate),
      SameWait-WaitsInquorate t (announce_quorum t) (SameWait-announce t) k,
    )

pub last_man_standing-Safely :
    (s : State) → WaitsInquorate s → Safely (last_man_standing_timer_fn s)
unfolding last_man_standing_timer_fn
last_man_standing-Safely s h =
    let t = record s { last_man_standing_timer_set = false } in
    elim (Bool-cases s.cluster_is_quorate) [
      | inl e ↦
          (let (u, r, k) = recalculate_quorum-Safely t true true h in (u, ground (arith, r), k))
      | inr e ↦ (t, ground arith, h)
    ]
