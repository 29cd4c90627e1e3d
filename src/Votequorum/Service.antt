-- ===== src/Votequorum/Service.antt =====
-- The vote quorum service of exec/votequorum.c as a whole: everything that can happen to a node, in any
-- order, as one step function over its state.
mod Examples
use corosync.Prelude.{ℕ, ◌≡◌, ◌∙◌, refl, sym, subst, Bool, Option, none, some, List, arith}
use mathlib.Core.Option.{some-injective}
use corosync.Votequorum.State.{State, RingId, ReconfigParam}
use corosync.Votequorum.Quorum.Waiting.{WaitsInquorate, SameWait, SameWait-WaitsInquorate, Safely}
use corosync.Votequorum.Messages.{
  Nodeinfo, nodeinfo_handler, reconfigure_handler, qdevice_reg_handler, qdevice_reconfigure_handler,
  set_extra_info_handler,
}
use corosync.Votequorum.Messages.Waiting.{
  HasRoom, IsKnown, nodeinfo_handler-Safely, reconfigure_handler-Safely,
}
use corosync.Votequorum.Messages.Others.{
  SameWait-qdevice_reg, SameWait-qdevice_reconfigure, SameWait-set_extra_info,
}
use corosync.Votequorum.Sync.{
  sync_init, sync_process, sync_activate, last_man_standing_timer_fn, qdevice_timer_fn,
}
use corosync.Votequorum.Sync.Waiting.{
  SameWait-sync_init, SameWait-sync_process, SameWait-qdevice_timer_fn, sync_activate-Safely,
  last_man_standing-Safely,
}
use corosync.Votequorum.Requests.{setexpected, setvotes}
use corosync.Votequorum.Requests.Waiting.{SameWait-setexpected, SameWait-setvotes}
use corosync.Votequorum.Requests.Device.{
  qdevice_register, qdevice_unregister, qdevice_update, qdevice_poll, qdevice_set_master_wins,
  qdevice_set_extra_info,
}
use corosync.Votequorum.Requests.Device.Waiting.{
  SameWait-register, SameWait-unregister, SameWait-update, SameWait-poll, SameWait-master_wins,
  SameWait-extra_info,
}

-- The messages with their sender, the calls of the synchronisation, the timers and the requests.
pub data Event : Type 0 where
  nodeinfo : Nodeinfo → ℕ → Event
  reconfigure : ReconfigParam → ℕ → ℕ → Event
  qdevice_reg : Bool → List ℕ → ℕ → Event
  qdevice_reconfigure : List ℕ → List ℕ → Event
  set_extra_info : ℕ → ℕ → Event
  sync_inits : List ℕ → RingId → Event
  sync_processes sync_activates last_man_standing_timer qdevice_timer : Event
  asks_expected : ℕ → Bool → Event
  asks_votes : ℕ → ℕ → Bool → Event
  asks_register : List ℕ → Bool → Event
  asks_unregister : List ℕ → Event
  asks_update : List ℕ → List ℕ → Event
  asks_poll : List ℕ → RingId → Bool → Event
  asks_master_wins : List ℕ → Bool → Event
  asks_extra_info : ℕ → Event

-- What an event does; `none` is a failed assertion or another fault.
pub step : State → Event → Option State
step s (nodeinfo msg sender) = nodeinfo_handler s msg sender
step s (reconfigure param nodeid value) = reconfigure_handler s param nodeid value
step s (qdevice_reg operation name nodeid) = some (qdevice_reg_handler s operation name nodeid)
step s (qdevice_reconfigure oldname newname) = some (qdevice_reconfigure_handler s oldname newname)
step s (set_extra_info ei_size nodeid) = some (set_extra_info_handler s ei_size nodeid)
step s (sync_inits member_list ring_id) = some (sync_init s member_list ring_id)
step s sync_processes = some (sync_process s).0
step s sync_activates = sync_activate s
step s last_man_standing_timer = last_man_standing_timer_fn s
step s qdevice_timer = some (qdevice_timer_fn s)
step s (asks_expected expected_votes mcast_ok) = some (setexpected s expected_votes mcast_ok).0
step s (asks_votes nodeid votes mcast_ok) = some (setvotes s nodeid votes mcast_ok).0
step s (asks_register name mcast_ok) = some (qdevice_register s name mcast_ok).0
step s (asks_unregister name) = some (qdevice_unregister s name).0
step s (asks_update oldname newname) = some (qdevice_update s oldname newname).0
step s (asks_poll name ring_id cast_vote) = some (qdevice_poll s name ring_id cast_vote).0
step s (asks_master_wins name allow) = some (qdevice_set_master_wins s name allow).0
step s (asks_extra_info ei_size) = some (qdevice_set_extra_info s ei_size).0

-- A nodeinfo message about the quorum device comes from a node that is known, and the table of nodes is not full.
abbrev pub Admissible : State → Event → Type 0
Admissible s (nodeinfo msg sender) = HasRoom s × IsKnown s msg sender
Admissible s _ = Unit {0}

-- The states that a node comes to by admissible events.
pub data Reach (s : State) : State → Type 0 where
  here : Reach s s
  next : {t u : State} → Reach s t → (e : Event) → Admissible t e → step t e ≡ some u → Reach s u

quiet : (s t : State) → SameWait s t → WaitsInquorate s → Safely (some t)
quiet s t same h = (t, refl, SameWait-WaitsInquorate s t same h)

step-Safely : (s : State) (e : Event) → Admissible s e → WaitsInquorate s → Safely (step s e)
unfolding step
step-Safely s (nodeinfo msg sender) a h = nodeinfo_handler-Safely s msg sender h a.0 a.1
step-Safely s (reconfigure param nodeid value) a h =
    reconfigure_handler-Safely s param nodeid value h
step-Safely s (qdevice_reg operation name nodeid) a h =
    quiet s _ (SameWait-qdevice_reg s operation name nodeid) h
step-Safely s (qdevice_reconfigure oldname newname) a h =
    quiet s _ (SameWait-qdevice_reconfigure s oldname newname) h
step-Safely s (set_extra_info ei_size nodeid) a h =
    quiet s _ (SameWait-set_extra_info s ei_size nodeid) h
step-Safely s (sync_inits member_list ring_id) a h =
    quiet s _ (SameWait-sync_init s member_list ring_id) h
step-Safely s sync_processes a h = quiet s _ (SameWait-sync_process s) h
step-Safely s sync_activates a h = sync_activate-Safely s h
step-Safely s last_man_standing_timer a h = last_man_standing-Safely s h
step-Safely s qdevice_timer a h = quiet s _ (SameWait-qdevice_timer_fn s) h
step-Safely s (asks_expected expected_votes mcast_ok) a h =
    quiet s _ (SameWait-setexpected s expected_votes mcast_ok) h
step-Safely s (asks_votes nodeid votes mcast_ok) a h =
    quiet s _ (SameWait-setvotes s nodeid votes mcast_ok) h
step-Safely s (asks_register name mcast_ok) a h = quiet s _ (SameWait-register s name mcast_ok) h
step-Safely s (asks_unregister name) a h = quiet s _ (SameWait-unregister s name) h
step-Safely s (asks_update oldname newname) a h = quiet s _ (SameWait-update s oldname newname) h
step-Safely s (asks_poll name ring_id cast_vote) a h =
    quiet s _ (SameWait-poll s name ring_id cast_vote) h
step-Safely s (asks_master_wins name allow) a h = quiet s _ (SameWait-master_wins s name allow) h
step-Safely s (asks_extra_info ei_size) a h = quiet s _ (SameWait-extra_info s ei_size) h

step-WaitsInquorate :
    (s t : State) (e : Event)
    → Admissible s e
    → step s e ≡ some t
    → WaitsInquorate s
    → WaitsInquorate t
step-WaitsInquorate s t e a r h =
    let (u, q, k) = step-Safely s e a h in subst WaitsInquorate (some-injective u t (sym q ∙ r)) k

Reach-WaitsInquorate : {s t : State} → WaitsInquorate s → Reach s t → WaitsInquorate t
Reach-WaitsInquorate h here = h
Reach-WaitsInquorate h (next r e a q) = step-WaitsInquorate _ _ e a q (Reach-WaitsInquorate h r)

-- From a node that does not wait for all others while it is quorate, no sequence of admissible events
-- comes to one that does, and the next admissible event never fails an assertion.
pub Reach-Safely :
    (s t : State) (e : Event)
    → WaitsInquorate s
    → Reach s t
    → Admissible t e
    → WaitsInquorate t × ((u : State) × (step t e ≡ some u))
Reach-Safely s t e h r a =
    let k = Reach-WaitsInquorate h r in let (u, q, _) = step-Safely t e a k in (k, (u, q))
