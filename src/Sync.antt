-- ===== src/Sync.antt =====
-- The synchronisation of the services after a new ring, exec/sync.c. Names and logs are left out.
use corosync.Prelude.{
  ℕ, zero, suc, ◌+◌, ◌-◌, Bool, true, false, not, ◌&&◌, ◌||◌, Option, none, some, List, [], ◌∷◌,
  ◌++◌, map, ltb, ◌==◌, if◌then◌else◌, length, ◌>>=◌,
}
pub mod Lists
pub mod Services
pub mod Agreement
pub mod Rounds
pub mod Orders
pub mod Started
pub mod Abort
mod Examples

-- enum sync_process_state
pub data ProcessState : Type 0 where
  process : ProcessState
  activate : ProcessState

-- enum sync_state
pub data SyncState : Type 0 where
  sync_servicelist_build : SyncState
  sync_process : SyncState
  sync_barrier : SyncState

-- struct memb_ring_id
pub record RingId : Type 0 where
  pub rep : ℕ
  pub seq : ℕ

-- struct service_entry; the callbacks of an external service are the dummies.
pub record Service : Type 0 where
  pub service_id : ℕ
  pub state : ProcessState
  pub is_external : Bool

-- struct processor_entry
pub record Processor : Type 0 where
  pub nodeid : ℕ
  pub received : Bool

-- What the code calls: the services, the messages to the ring, the work of the scheduler, and
-- sync_synchronization_completed.
pub data Output : Type 0 where
  init_service : ℕ → List ℕ → List ℕ → RingId → Output
  process_service : ℕ → Output
  activate_service : ℕ → Output
  abort_service : ℕ → Output
  completed : Output
  send_barrier : RingId → Output
  send_service_build : RingId → List ℕ → Output
  schedule : Output
  unschedule : Output

-- The static variables.
pub record Sync : Type 0 where
  pub my_state : SyncState
  pub my_ring_id : RingId
  pub my_processing_idx : ℕ
  pub my_processor_list : List Processor
  pub my_member_list : List ℕ
  pub my_trans_list : List ℕ
  pub my_service_list : List Service
  pub outputs : List Output

abbrev pub put : Sync → List Output → Sync
put s out = record s { outputs = s.outputs ++ out }

abbrev pub same_ring : RingId → RingId → Bool
same_ring a b = a.rep == b.rep && a.seq == b.seq

-- The first loop over the processors of a handler.
unfoldable pub mark_received : ℕ → List Processor → List Processor
mark_received nodeid [] = []
mark_received nodeid (p ∷ ps) =
    (if p.nodeid == nodeid then record p { received = true } else p) ∷ mark_received nodeid ps

-- The second loop.
unfoldable pub barrier_reached : List Processor → Bool
barrier_reached [] = true
barrier_reached (p ∷ ps) = p.received && barrier_reached ps

unfoldable pub is_listed : ℕ → List Service → Bool
is_listed id [] = false
is_listed id (e ∷ es) = e.service_id == id || is_listed id es

abbrev external : ℕ → Service
external id = record { service_id = id; state = ProcessState.process; is_external = true }

-- The loop of sync_service_build_handler over the services of the message.
unfoldable pub add_services : List ℕ → List Service → List Service
unfolding is_listed
add_services [] es = es
add_services (id ∷ ids) es =
    add_services ids (if is_listed id es then es else es ++ external id ∷ [])

unfoldable pub insert_service : Service → List Service → List Service
insert_service e [] = e ∷ []
insert_service e (x ∷ es) =
    let rest = insert_service e es in if ltb e.service_id x.service_id then e ∷ x ∷ es else x ∷ rest

-- qsort of libc by service_entry_compare
unfoldable pub sort_services : List Service → List Service
unfolding insert_service
sort_services [] = []
sort_services (e ∷ es) = insert_service e (sort_services es)

unfoldable pub is_in : ℕ → List ℕ → Bool
is_in x [] = false
is_in x (y ∷ ys) = x == y || is_in x ys

-- The loop of sync_process_call_init over my_trans_list.
unfoldable pub kept_trans : List ℕ → List ℕ → List ℕ
unfolding is_in
kept_trans members [] = []
kept_trans members (o ∷ os) =
    let rest = kept_trans members os in if is_in o members then o ∷ rest else rest

-- An entry of my_service_list; `none` is behind its end.
unfoldable pub service_at : List Service → ℕ → Option Service
service_at [] i = none
service_at (e ∷ es) zero = some e
service_at (e ∷ es) (suc i) = service_at es i

unfoldable pub set_active : List Service → ℕ → List Service
set_active [] i = []
set_active (e ∷ es) zero = record e { state = ProcessState.activate } ∷ es
set_active (e ∷ es) (suc i) = e ∷ set_active es i

-- The loop of sync_process_enter over the processors.
unfoldable pub clear_processors : List Processor → List Processor
clear_processors [] = []
clear_processors (p ∷ ps) = record p { received = false } ∷ clear_processors ps

-- sync_process_enter
unfoldable pub sync_process_enter : Sync → Sync
unfolding clear_processors
sync_process_enter s =
    if length s.my_service_list == 0
    then put (record s { my_state = sync_servicelist_build }) (completed ∷ [])
    else put
        (record s {
          my_state = sync_process;
          my_processor_list = clear_processors s.my_processor_list;
        })
        (schedule ∷ [])

-- sync_service_build_handler
unfoldable pub sync_service_build_handler : Sync → ℕ → RingId → List ℕ → Sync
unfolding add_services sort_services mark_received barrier_reached sync_process_enter
sync_service_build_handler s nodeid ring service_list =
    let added = add_services service_list s.my_service_list in
    let t = record s {
      my_service_list =
          if length added == length s.my_service_list then added else sort_services added;
      my_processor_list = mark_received nodeid s.my_processor_list;
    } in
    if not (same_ring s.my_ring_id ring)
    then s
    else if barrier_reached t.my_processor_list
    then sync_process_enter t
    else t

-- The first loop of sync_servicelist_build_enter.
unfoldable pub processors_of : List ℕ → List Processor
processors_of [] = []
processors_of (id ∷ ids) = record { nodeid = id; received = false } ∷ processors_of ids

-- The identifiers of services, as the message has them.
abbrev pub ids_of : List Service → List ℕ
ids_of [] = []
ids_of (e ∷ es) = e.service_id ∷ ids_of es

-- sync_save_transitional
abbrev pub sync_save_transitional : Sync → List ℕ → Sync
sync_save_transitional s member_list = record s { my_trans_list = member_list }

abbrev in_round : SyncState → Bool
in_round st = elim st [ sync_servicelist_build ↦ false | sync_process ↦ true | sync_barrier ↦ true ]

abbrev is_scheduled : SyncState → Bool
is_scheduled st = elim st [ sync_process ↦ true | _ ↦ false ]

-- sync_barrier_enter
abbrev pub sync_barrier_enter : Sync → Sync
sync_barrier_enter s = put (record s { my_state = sync_barrier }) (send_barrier s.my_ring_id ∷ [])

abbrev is_processing : Service → Bool
is_processing e = elim e.state [ ProcessState.process ↦ true | ProcessState.activate ↦ false ]

-- sync_callbacks_retrieve is a parameter: whether it knows a service.
module _ (is_known : ℕ → Bool) where
  -- A callback of a service, unless it is the dummy of an external service or the service is not known.
  abbrev pub call : Service → (ℕ → Output) → List Output
  call e callback =
      if is_known e.service_id && not e.is_external then callback e.service_id ∷ [] else []

  -- sync_barrier_handler
  unfoldable pub sync_barrier_handler : Sync → ℕ → RingId → Option Sync
  unfolding mark_received barrier_reached sync_process_enter service_at set_active
  sync_barrier_handler s nodeid ring =
      let t = record s { my_processor_list = mark_received nodeid s.my_processor_list } in
      if not (same_ring s.my_ring_id ring)
      then some s
      else if not (barrier_reached t.my_processor_list)
      then some t
      else service_at s.my_service_list s.my_processing_idx >>= λ e.
          (let u =
              put
                (record t {
                  my_service_list = set_active s.my_service_list s.my_processing_idx;
                  my_processing_idx = s.my_processing_idx + 1;
                })
                (call e activate_service) in
            some (
              if length s.my_service_list == s.my_processing_idx + 1
              then put u (completed ∷ [])
              else sync_process_enter u))

  unfoldable pub init_services : List ℕ → List ℕ → RingId → List Service → List Output
  init_services trans members ring [] = []
  init_services trans members ring (e ∷ es) =
      call e (λ id. init_service id trans members ring) ++ init_services trans members ring es

  -- sync_process_call_init
  unfoldable pub sync_process_call_init : Sync → Sync
  unfolding kept_trans init_services
  sync_process_call_init s =
      let trans = kept_trans s.my_member_list s.my_trans_list in
      put (record s { my_trans_list = trans })
        (init_services trans s.my_member_list s.my_ring_id s.my_service_list)

  -- schedwrk_processor, where `res` is what the service's sync_process answers. The Boolean is whether it is to
  -- be called again.
  unfoldable pub schedwrk_processor : Sync → ℕ → Option (Sync × Bool)
  unfolding service_at
  schedwrk_processor s res = service_at s.my_service_list s.my_processing_idx >>= λ e.
      (let is_dummy = length (call e process_service) == 0 in
        let t = put s (call e process_service) in
        some (
          if not (is_processing e)
          then (s, false)
          else if is_dummy || res == 0
          then (sync_barrier_enter t, false)
          else (t, true)))

  -- sync_abort
  unfoldable pub sync_abort : Sync → Sync
  unfolding service_at
  sync_abort s =
      let stopped = if is_scheduled s.my_state then put s (unschedule ∷ []) else s in
      let aborted : List Output = elim (service_at s.my_service_list s.my_processing_idx) [
        | none ↦ []
        | some e ↦ call e abort_service
      ] in
      record (put stopped (if in_round s.my_state then aborted else [])) {
        my_ring_id = record { rep = 0; seq = 0 };
      }

-- The other is whether a service has a sync_init.
module _ (is_known has_init : ℕ → Bool) where
  -- The services from `id` on that take part in the synchronisation.
  unfoldable pub local_services : ℕ → ℕ → List Service
  local_services id zero = []
  local_services id (suc n) =
      let rest = local_services (suc id) n in
      if is_known id && has_init id
      then record { service_id = id; state = ProcessState.process; is_external = false } ∷ rest
      else rest

  -- sync_servicelist_build_enter, with SERVICES_COUNT_MAX services
  unfoldable pub sync_servicelist_build_enter : Sync → List ℕ → Sync
  unfolding local_services processors_of sync_process_call_init
  sync_servicelist_build_enter s member_list =
      let services = local_services 0 64 in
      sync_process_call_init is_known (
        put
          (record s {
            my_state = sync_servicelist_build;
            my_processor_list = processors_of member_list;
            my_member_list = member_list;
            my_processing_idx = 0;
            my_service_list = services;
          })
          (send_service_build s.my_ring_id (ids_of services) ∷ []))

  -- sync_start
  unfoldable pub sync_start : Sync → List ℕ → RingId → Sync
  unfolding sync_servicelist_build_enter
  sync_start s member_list ring_id =
      sync_servicelist_build_enter (record s { my_ring_id = ring_id }) member_list
