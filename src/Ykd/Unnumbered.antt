-- ===== src/Ykd/Unnumbered.antt =====
-- The session ids of the ambiguous sessions of exec/vsf_ykd.c.
use corosync.Prelude.{
  ℕ, zero, suc, ◌<◌, ◌≡◌, refl, subst, Bool, true, false, Option, none, some, List, [], ltb,
  if◌then◌else◌, arith, inl, inr, Bool-cases,
}
use corosync.Votequorum.State.{RingId}
use corosync.Ykd.{
  YkdState, YkdMode, StateReceived, Ykd, clear_received, Maxima, mode_sendstate, mode_attempt,
  newer_sessions, compute_one, compute_from, no_maxima, compute, subquorum, all_subquorum, decide,
  mark_sender, find_position, all_received, start_attempt, form_primary, states_complete,
  deliver_state, is_ignored, ykd_deliver_fn, first_primary, ykd_confchg_fn,
}

-- No ambiguous session of the state has a number.
abbrev pub Unnumbered : YkdState → Type 0
Unnumbered state = (i : ℕ) → (state.ambiguous_sessions i).session_id ≡ 0

newer_sessions_none :
    (state : YkdState) (primary_id j n : ℕ)
    → Unnumbered state
    → primary_id < 0x8000_0000
    → newer_sessions state primary_id j n ≡ []
unfolding newer_sessions
newer_sessions_none state p j zero u h = refl
newer_sessions_none state p j (suc n) u h =
    ground (arith, u j, newer_sessions_none state p (suc j) n u h)

one_primary :
    (m : Maxima) (state : YkdState)
    → m.last_primary.session_id < 0x8000_0000
    → state.last_primary.session_id < 0x8000_0000
    → (compute_one m state).last_primary.session_id < 0x8000_0000
unfolding compute_one
one_primary m state h k = ground arith

one_ambiguous :
    (m : Maxima) (state : YkdState)
    → Unnumbered state
    → m.last_primary.session_id < 0x8000_0000
    → state.last_primary.session_id < 0x8000_0000
    → m.ambiguous ≡ []
    → (compute_one m state).ambiguous ≡ []
unfolding compute_one
one_ambiguous m state u h k e = rw e (
    newer_sessions_none state (compute_one m state).last_primary.session_id 0
      state.ambiguous_sessions_entries u (one_primary m state h k))

compute_from_none :
    (process : ℕ → StateReceived) (m : Maxima) (i n : ℕ)
    → ((k : ℕ) → Unnumbered (process k).ykd_state)
    → ((k : ℕ) → (process k).ykd_state.last_primary.session_id < 0x8000_0000)
    → m.last_primary.session_id < 0x8000_0000
    → m.ambiguous ≡ []
    → (compute_from process m i n).ambiguous ≡ []
unfolding compute_from
compute_from_none process m i zero u w h e = e
compute_from_none process m i (suc n) u w h e =
    compute_from_none process (compute_one m (process i).ykd_state) (suc i) n u w
      (one_primary m (process i).ykd_state h (w i))
      (one_ambiguous m (process i).ykd_state (u i) h (w i) e)

-- If the ambiguous sessions of all states received have no number, and the last primary components have
-- numbers that are not negative, decide looks at the last primary component alone.
pub decide-Unnumbered :
    (s : Ykd)
    → ((k : ℕ) → Unnumbered (s.state_received_process k).ykd_state)
    → ((k : ℕ) → (s.state_received_process k).ykd_state.last_primary.session_id < 0x8000_0000)
    → decide (compute s) ≡ subquorum s.ykd_view_list (compute s).last_primary_max
unfolding decide compute all_subquorum
decide-Unnumbered s u w =
    rw (decide, compute_from_none s.state_received_process (no_maxima s) 0 s.entries u w (w 0) refl)
      (last_step (subquorum s.ykd_view_list (compute s).last_primary_max))
  where
    last_step : (b : Bool) → (if b then true else false) ≡ b
    last_step true = refl
    last_step false = refl

start_attempt-Unnumbered :
    (s : Ykd) → Unnumbered s.ykd_state → Unnumbered (start_attempt s).ykd_state
unfolding start_attempt
start_attempt-Unnumbered s u i = ground (arith, u i, u s.ykd_state.ambiguous_sessions_entries)

-- The node when all states are there, before decide.
abbrev completed : Ykd → Ykd
completed s = compute (record s {
  state_received_process = clear_received s.state_received_process s.entries;
  ykd_mode = mode_attempt;
})

states_complete-Unnumbered :
    (s : Ykd) → Unnumbered s.ykd_state → Unnumbered (states_complete s).ykd_state
unfolding states_complete compute
states_complete-Unnumbered s u = attempt (decide (completed s))
  where
    attempt :
        (b : Bool) → Unnumbered (if b then start_attempt (completed s) else completed s).ykd_state
    attempt true = start_attempt-Unnumbered (completed s) u
    attempt false = u

deliver_state-Unnumbered :
    (s : Ykd) (position : ℕ) (all : Bool) (state : YkdState)
    → Unnumbered s.ykd_state
    → Unnumbered (deliver_state s position all state).ykd_state
unfolding deliver_state
deliver_state-Unnumbered s position true state u = states_complete-Unnumbered _ u
deliver_state-Unnumbered s position false state u = u

mark_sender-Unnumbered :
    (s : Ykd) (position : ℕ)
    → Unnumbered s.ykd_state
    → Unnumbered (mark_sender s position).ykd_state
unfolding mark_sender
mark_sender-Unnumbered s position u = elim (Bool-cases (ltb position s.entries)) [
  | inl h ↦ rw h u
  | inr h ↦ rw h u
]

form_primary-Unnumbered :
    (s : Ykd) (all : Bool)
    → Unnumbered s.ykd_state
    → Unnumbered (if all then form_primary s else s).ykd_state
unfolding form_primary
form_primary-Unnumbered s true u = u
form_primary-Unnumbered s false u = u

-- The same of a result, if there is one.
abbrev Kept : Option Ykd → Type 0
Kept none = Unit {0}
Kept (some t) = Unnumbered t.ykd_state

deliver_mode :
    (t : Ykd) (position : ℕ) (all : Bool) (mode : YkdMode) (msg_state : Option YkdState)
    → Unnumbered t.ykd_state
    → Kept (elim mode [
      | mode_sendstate ↦ elim msg_state [
        | none ↦ none
        | some state ↦ some (deliver_state t position all state)
      ]
      | mode_attempt ↦ some (if all then form_primary t else t)
    ])
deliver_mode t position all mode_sendstate none u = tt
deliver_mode t position all mode_sendstate (some state) u =
    deliver_state-Unnumbered t position all state u
deliver_mode t position all mode_attempt msg_state u = form_primary-Unnumbered t all u

deliver-Kept :
    (s : Ykd) (nodeid header_id : ℕ) (msg_state : Option YkdState)
    → Unnumbered s.ykd_state
    → Kept (ykd_deliver_fn s nodeid header_id msg_state)
unfolding ykd_deliver_fn
deliver-Kept s nodeid header_id msg_state u =
    let p = find_position s.state_received_process nodeid 0 s.entries in
    let t = mark_sender s p in
    let v = mark_sender-Unnumbered s p u in
    elim (Bool-cases (is_ignored t.ykd_mode header_id)) [
      | inl h ↦ rw h v
      | inr h ↦ rw h (
          deliver_mode t p (all_received t.state_received_process 0 t.entries) t.ykd_mode msg_state
            v)
    ]

confchg-Unnumbered :
    (s : Ykd) (is_regular : Bool) (members : List ℕ) (ring_id : RingId) (nodeid : ℕ)
    → Unnumbered s.ykd_state
    → Unnumbered (ykd_confchg_fn s is_regular members ring_id nodeid).ykd_state
unfolding ykd_confchg_fn first_primary
confchg-Unnumbered s false members ring_id nodeid u = u
confchg-Unnumbered s true members ring_id nodeid u = elim (Bool-cases s.first_run) [
  | inl h ↦ rw h u
  | inr h ↦ rw h u
]

-- Delivered messages and configuration changes never give a number to an ambiguous session of this node.
pub ykd_deliver_fn-Unnumbered :
    (s t : Ykd) (nodeid header_id : ℕ) (msg_state : Option YkdState) (is_regular : Bool)
    (members : List ℕ) (ring_id : RingId)
    → Unnumbered s.ykd_state
    → ykd_deliver_fn s nodeid header_id msg_state ≡ some t
    → Unnumbered t.ykd_state
      × Unnumbered (ykd_confchg_fn s is_regular members ring_id nodeid).ykd_state
ykd_deliver_fn-Unnumbered s t nodeid header_id msg_state is_regular members ring_id u h = (
  subst Kept h (deliver-Kept s nodeid header_id msg_state u),
  confchg-Unnumbered s is_regular members ring_id nodeid u,
)
