-- ===== src/Ykd.antt =====
-- The YKD choice of the primary component, exec/vsf_ykd.c.
pub mod Exclusion
pub mod Unnumbered
mod Examples
use corosync.Prelude.{
  ℕ, zero, suc, ◌+◌, ◌-◌, Bool, true, false, not, ◌&&◌, ◌||◌, Option, none, some, List, [], ◌∷◌,
  ◌++◌, ltb, leb, ◌==◌, if◌then◌else◌, add32, slt32, update, length,
}
use corosync.Votequorum.State.{RingId}

-- struct ykd_session: the entries of member_list, and an `int`.
pub record Session : Type 0 where
  pub member_list : List ℕ
  pub session_id : ℕ

-- struct ykd_state, without last_formed, which nothing reads.
pub record YkdState : Type 0 where
  pub last_primary : Session
  pub ambiguous_sessions : ℕ → Session
  pub ambiguous_sessions_entries : ℕ
  pub session_id : ℕ

-- struct state_received
pub record StateReceived : Type 0 where
  pub nodeid : ℕ
  pub received : Bool
  pub ykd_state : YkdState

pub data YkdMode : Type 0 where
  mode_sendstate mode_attempt : YkdMode

-- The calls of the callback and of schedwrk_create.
pub data Output : Type 0 where
  primary_callback : List ℕ → Bool → RingId → Output
  send_state send_attempt : Output

-- The static variables. The arrays of received states have as many entries as the view; last_primary_max is
-- what the pointer points to when it is read.
pub record Ykd : Type 0 where
  pub ykd_state : YkdState
  pub state_received_process : ℕ → StateReceived
  pub entries : ℕ
  pub ykd_mode : YkdMode
  pub ykd_view_list : List ℕ
  pub session_id_max : ℕ
  pub last_primary_max : Session
  pub ambiguous_sessions_max : List Session
  pub ykd_primary_designated : Bool
  pub ykd_ring_id : RingId
  pub first_run : Bool
  pub outputs : List Output

-- What the loop of compute keeps.
pub record Maxima : Type 0 where
  pub session_id : ℕ
  pub last_primary : Session
  pub ambiguous : List Session

-- The inner loop of compute, over `count` sessions from `j` on.
unfoldable pub newer_sessions : YkdState → ℕ → ℕ → ℕ → List Session
newer_sessions state primary_id j zero = []
newer_sessions state primary_id j (suc count) =
    let rest = newer_sessions state primary_id (suc j) count in
    if slt32 primary_id (state.ambiguous_sessions j).session_id
    then state.ambiguous_sessions j ∷ rest
    else rest

-- The body of the outer loop.
unfoldable pub compute_one : Maxima → YkdState → Maxima
compute_one m state =
    let primary =
      if slt32 m.last_primary.session_id state.last_primary.session_id
      then state.last_primary
      else m.last_primary in
    record {
      session_id = if slt32 m.session_id state.session_id then state.session_id else m.session_id;
      last_primary = primary;
      ambiguous =
          m.ambiguous ++ newer_sessions state primary.session_id 0 state.ambiguous_sessions_entries;
    }

unfoldable pub compute_from : (ℕ → StateReceived) → Maxima → ℕ → ℕ → Maxima
compute_from process m i zero = m
compute_from process m i (suc count) =
    compute_from process (compute_one m (process i).ykd_state) (suc i) count

-- The maxima before the loop.
abbrev pub no_maxima : Ykd → Maxima
no_maxima s = record {
  session_id = 0;
  last_primary = (s.state_received_process 0).ykd_state.last_primary;
  ambiguous = [];
}

-- compute
unfoldable pub compute : Ykd → Ykd
compute s =
    let m = compute_from s.state_received_process (no_maxima s) 0 s.entries in
    record s {
      session_id_max = m.session_id;
      last_primary_max = m.last_primary;
      ambiguous_sessions_max = m.ambiguous;
    }

-- The inner loop of subquorum.
unfoldable pub hits : ℕ → List ℕ → ℕ
hits x [] = 0
hits x (m ∷ members) = let rest = hits x members in if x == m then suc rest else rest

unfoldable pub intersections : List ℕ → List ℕ → ℕ
intersections [] members = 0
intersections (x ∷ view) members = hits x members + intersections view members

-- subquorum: an even split and a majority. Counts are small, so that the `int`s do not wrap.
unfoldable pub subquorum : List ℕ → Session → Bool
subquorum view session =
    let n = intersections view session.member_list in
    if length session.member_list == n + n then true else ltb (length session.member_list) (n + n)

unfoldable pub all_subquorum : List ℕ → List Session → Bool
all_subquorum view [] = true
all_subquorum view (session ∷ rest) =
    if subquorum view session then all_subquorum view rest else false

-- decide
unfoldable pub decide : Ykd → Bool
decide s =
    if subquorum s.ykd_view_list s.last_primary_max
    then all_subquorum s.ykd_view_list s.ambiguous_sessions_max
    else false

-- The search for the sender in ykd_deliver_fn: the number of entries if it is not found.
unfoldable pub find_position : (ℕ → StateReceived) → ℕ → ℕ → ℕ → ℕ
find_position process nodeid i zero = i
find_position process nodeid i (suc count) =
    let rest = find_position process nodeid (suc i) count in
    if nodeid == (process i).nodeid then i else rest

unfoldable pub all_received : (ℕ → StateReceived) → ℕ → ℕ → Bool
all_received process i zero = true
all_received process i (suc count) =
    let rest = all_received process (suc i) count in if (process i).received then rest else false

unfoldable pub clear_received : (ℕ → StateReceived) → ℕ → ℕ → StateReceived
clear_received process entries i =
    if ltb i entries then record (process i) { received = false } else process i

-- The sender is marked, if it is in the view.
unfoldable pub mark_sender : Ykd → ℕ → Ykd
mark_sender s position =
    if ltb position s.entries
    then record s {
      state_received_process =
          update s.state_received_process position
            (record (s.state_received_process position) { received = true });
    }
    else s

-- The attempt starts: the view becomes an ambiguous session, whose session_id is not written.
unfoldable pub start_attempt : Ykd → Ykd
start_attempt s =
    let state = s.ykd_state in
    let slot = state.ambiguous_sessions_entries in
    record s {
      ykd_state = record state {
        session_id = add32 s.session_id_max 1;
        ambiguous_sessions =
            update state.ambiguous_sessions slot
              (record (state.ambiguous_sessions slot) { member_list = s.ykd_view_list });
        ambiguous_sessions_entries = suc slot;
      };
      outputs = send_attempt ∷ s.outputs;
    }

-- The view becomes the primary component.
unfoldable pub form_primary : Ykd → Ykd
form_primary s = record s {
  ykd_primary_designated = true;
  outputs = primary_callback s.ykd_view_list true s.ykd_ring_id ∷ s.outputs;
  ykd_state = record s.ykd_state {
    last_primary = record { member_list = s.ykd_view_list; session_id = s.ykd_state.session_id };
    ambiguous_sessions_entries = 0;
  };
}

-- The states are complete: the mode changes, and an attempt starts if the view may be primary.
unfoldable pub states_complete : Ykd → Ykd
states_complete s =
    let t = compute (record s {
      state_received_process = clear_received s.state_received_process s.entries;
      ykd_mode = mode_attempt;
    }) in
    if decide t then start_attempt t else t

-- The case of a state message.
unfoldable pub deliver_state : Ykd → ℕ → Bool → YkdState → Ykd
deliver_state s position all state =
    let t = record s {
      state_received_process =
          update s.state_received_process position
            (record (s.state_received_process position) { ykd_state = state });
    } in
    if all then states_complete t else t

-- Whether ykd_deliver_fn ignores a message with this id in its header.
abbrev pub is_ignored : YkdMode → ℕ → Bool
is_ignored mode_sendstate id = id == 1
is_ignored mode_attempt id = id == 0

-- ykd_deliver_fn, for a message of our byte order; the state is none when the message has only a header,
-- and the result is none when the assertion on the length fails.
unfoldable pub ykd_deliver_fn : Ykd → ℕ → ℕ → Option YkdState → Option Ykd
ykd_deliver_fn s nodeid header_id msg_state =
    let position = find_position s.state_received_process nodeid 0 s.entries in
    let t = mark_sender s position in
    let all = all_received t.state_received_process 0 t.entries in
    if is_ignored t.ykd_mode header_id then some t else elim t.ykd_mode [
      | mode_sendstate ↦ elim msg_state [
        | none ↦ none
        | some state ↦ some (deliver_state t position all state)
      ]
      | mode_attempt ↦ some (if all then form_primary t else t)
    ]

-- ykd_state_init
unfoldable pub ykd_state_init : Ykd → Ykd
ykd_state_init s = record s {
  ykd_state = record s.ykd_state {
    session_id = 0;
    ambiguous_sessions_entries = 0;
    last_primary = record { member_list = []; session_id = 0 };
  };
}

-- A state of zero bytes, as memset leaves it.
abbrev pub no_state : YkdState
no_state = record {
  last_primary = record { member_list = []; session_id = 0 };
  ambiguous_sessions = λ _. record { member_list = []; session_id = 0 };
  ambiguous_sessions_entries = 0;
  session_id = 0;
}

unfoldable pub received_of : List ℕ → ℕ → StateReceived
received_of [] i = record { nodeid = 0; received = false; ykd_state = no_state }
received_of (x ∷ members) zero = record { nodeid = x; received = false; ykd_state = no_state }
received_of (x ∷ members) (suc i) = received_of members i

-- The first configuration makes this node alone the last primary component.
unfoldable pub first_primary : Ykd → ℕ → Ykd
first_primary s nodeid =
    if s.first_run
    then record s {
      ykd_state = record s.ykd_state {
        last_primary = record { member_list = nodeid ∷ []; session_id = 0 };
      };
      first_run = false;
    }
    else s

-- ykd_confchg_fn; totem_nodeid_get answers `nodeid`.
unfoldable pub ykd_confchg_fn : Ykd → (is_regular : Bool) → List ℕ → RingId → (nodeid : ℕ) → Ykd
ykd_confchg_fn s is_regular members ring_id nodeid =
    let t = first_primary s nodeid in
    if is_regular
    then record t {
      ykd_ring_id = ring_id;
      ykd_view_list = members;
      ykd_mode = mode_sendstate;
      ykd_primary_designated = false;
      state_received_process = received_of members;
      entries = length members;
      outputs = send_state ∷ primary_callback members false ring_id ∷ t.outputs;
    }
    else s
