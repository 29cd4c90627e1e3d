-- ===== src/Sync/Examples.antt =====
-- The theorems about exec/sync.c at two nodes with different services.
use corosync.Prelude.{
  ℕ, ◌≡◌, refl, Bool, true, ◌||◌, some, List, [], ◌∷◌, ◌++◌, length, arith, ◌==◌,
}
use corosync.Sync.{
  Sync, SyncState, RingId, schedule, is_listed, is_in, ids_of, add_services, sort_services,
  insert_service, mark_received, barrier_reached, clear_processors, processors_of, kept_trans,
  init_services, local_services, sync_process_enter, sync_process_call_init,
  sync_service_build_handler, sync_barrier_handler, sync_servicelist_build_enter, sync_start,
  sync_abort,
}
use corosync.Sync.Agreement.{ServiceBuild, HearsItself, is_announced, build_all, build_all_agrees}
use corosync.Sync.Rounds.{round, calls}
use corosync.Sync.Orders.{IsOrder}
use corosync.Sync.Started.{round_completes}
use corosync.Sync.Abort.{sync_abort_ignores}

abbrev ring : RingId
ring = record { rep = 1; seq = 8 }

-- The variables of a node that has just been started.
abbrev idle : Sync
idle = record {
  my_state = SyncState.sync_barrier;
  my_ring_id = record { rep = 0; seq = 0 };
  my_processing_idx = 0;
  my_processor_list = [];
  my_member_list = [];
  my_trans_list = [];
  my_service_list = [];
  outputs = [];
}

-- Services 2 and 4 are on one node, 2 and 3 on the other.
abbrev even_services : ℕ → Bool
even_services id = id == 2 || id == 4

abbrev small_services : ℕ → Bool
small_services id = id == 2 || id == 3

abbrev builds : List ServiceBuild
builds =
    record { nodeid = 1; service_list = 2 ∷ 4 ∷ [] }
    ∷ record { nodeid = 5; service_list = 2 ∷ 3 ∷ [] }
    ∷ []

even_local : ids_of (local_services even_services even_services 0 64) ≡ 2 ∷ 4 ∷ []
unfolding local_services
even_local = refl

even_heard : HearsItself (local_services even_services even_services 0 64) builds
unfolding local_services is_listed is_in
even_heard id h = ground (arith, h)

small_heard : HearsItself (local_services small_services small_services 0 64) builds
unfolding local_services is_listed is_in
small_heard id h = ground (arith, h)

same-IsOrder : IsOrder (1 ∷ 5 ∷ []) (1 ∷ 5 ∷ [])
unfolding is_in
same-IsOrder = record { distinct = (refl, (refl, tt)); same = λ x. refl }

other-IsOrder : IsOrder (1 ∷ 5 ∷ []) (5 ∷ 1 ∷ [])
unfolding is_in
other-IsOrder = record { distinct = (refl, (refl, tt)); same = λ x. ground arith }

announced_two : is_announced 2 builds ≡ true
unfolding is_in
announced_two = refl

build_all_agrees_example :
    ids_of
      (build_all
        (sync_start even_services even_services idle (1 ∷ 5 ∷ []) ring)
        builds).my_service_list
    ≡ ids_of
        (build_all
          (sync_start small_services small_services idle (1 ∷ 5 ∷ []) ring)
          builds).my_service_list
build_all_agrees_example =
    build_all_agrees even_services even_services small_services small_services idle idle
      (1 ∷ 5 ∷ []) ring builds builds (λ id. refl) even_heard small_heard

abbrev orders : List (List ℕ)
orders = (1 ∷ 5 ∷ []) ∷ (5 ∷ 1 ∷ []) ∷ (1 ∷ 5 ∷ []) ∷ []

three_services :
    length orders
    ≡ length
        (build_all
          (sync_start even_services even_services idle (1 ∷ 5 ∷ []) ring)
          builds).my_service_list
unfolding build_all sync_start sync_servicelist_build_enter sync_process_call_init local_services
    kept_trans init_services sync_service_build_handler add_services is_listed sort_services
    insert_service is_in mark_received barrier_reached processors_of sync_process_enter
    clear_processors
three_services = refl

round_completes_example :
    (t : Sync) × (round even_services
        (build_all (sync_start even_services even_services idle (1 ∷ 5 ∷ []) ring) builds)
        orders
      ≡ some t)
    × (t.outputs
        ≡ (sync_start even_services even_services idle (1 ∷ 5 ∷ []) ring).outputs
          ++ (schedule
              ∷ calls even_services ring
                  (build_all
                    (sync_start even_services even_services idle (1 ∷ 5 ∷ []) ring)
                    builds).my_service_list))
round_completes_example =
    round_completes even_services even_services idle 1 (5 ∷ []) ring builds orders 2 same-IsOrder
      announced_two (same-IsOrder, (other-IsOrder, (same-IsOrder, tt))) three_services

sync_abort_ignores_example :
    (sync_barrier_handler even_services
        (sync_abort even_services (sync_start even_services even_services idle (1 ∷ []) ring))
        1
        ring
      ≡ some (sync_abort even_services (sync_start even_services even_services idle (1 ∷ []) ring)))
    × (sync_service_build_handler
          (sync_abort even_services (sync_start even_services even_services idle (1 ∷ []) ring))
          1
          ring
          (2 ∷ [])
        ≡ sync_abort even_services (sync_start even_services even_services idle (1 ∷ []) ring))
sync_abort_ignores_example =
    sync_abort_ignores even_services (sync_start even_services even_services idle (1 ∷ []) ring) 1
      ring (2 ∷ []) (omega arith)

-- A message of another ring.
old_ring : sync_barrier_handler even_services idle 1 ring ≡ some idle
unfolding sync_barrier_handler
old_ring = refl
