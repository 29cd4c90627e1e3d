-- ===== src/Sync/Agreement.antt =====
-- What the service_build messages of a ring leave in exec/sync.c at each node.
use corosync.Prelude.{ℕ, ◌≡◌, refl, ◌∙◌, sym, Bool, true, false, ◌||◌, List, [], ◌∷◌, arith}
use corosync.Sync.{
  Service, Sync, RingId, is_listed, is_in, ids_of, sync_service_build_handler, local_services,
  sync_start,
}
use corosync.Sync.Lists.{IsSorted}
use corosync.Sync.Services.{
  with_services-IsSorted, is_listed-with_services, build_handler_lists, local_services-IsSorted,
  sync_start_lists, IsSorted-ids_of,
}

-- struct req_exec_service_build_message of the current ring, with its sender
pub record ServiceBuild : Type 0 where
  pub nodeid : ℕ
  pub service_list : List ℕ

-- The messages of the ring, one after the other.
unfoldable pub build_all : Sync → List ServiceBuild → Sync
unfolding sync_service_build_handler
build_all s [] = s
build_all s (m ∷ ms) =
    build_all (sync_service_build_handler s m.nodeid s.my_ring_id m.service_list) ms

-- Some message has the service.
abbrev pub is_announced : ℕ → List ServiceBuild → Bool
is_announced id [] = false
is_announced id (m ∷ ms) = is_in id m.service_list || is_announced id ms

build_all-IsSorted :
    (s : Sync) (ms : List ServiceBuild)
    → IsSorted s.my_service_list
    → IsSorted (build_all s ms).my_service_list
unfolding build_all
build_all-IsSorted s [] h = h
build_all-IsSorted s (m ∷ ms) h =
    build_all-IsSorted (sync_service_build_handler s m.nodeid s.my_ring_id m.service_list) ms (
      rw (build_handler_lists s m.nodeid m.service_list).0
        (with_services-IsSorted m.service_list s.my_service_list h))

pub is_listed-build_all :
    (id : ℕ) (s : Sync) (ms : List ServiceBuild)
    → is_listed id (build_all s ms).my_service_list
      ≡ (is_announced id ms || is_listed id s.my_service_list)
unfolding build_all
is_listed-build_all id s [] = refl
is_listed-build_all id s (m ∷ ms) =
    is_listed-build_all id (sync_service_build_handler s m.nodeid s.my_ring_id m.service_list) ms
    ∙ rw
        (
          (build_handler_lists s m.nodeid m.service_list).0,
          is_listed-with_services id m.service_list s.my_service_list,
        )
        (ground arith)

-- The services of a node are among those of the messages: it gets its own message too.
abbrev pub HearsItself : List Service → List ServiceBuild → Type 0
HearsItself es ms = (id : ℕ) → is_listed id es ≡ true → is_announced id ms ≡ true

announced :
    (id : ℕ) (es : List Service) (ms : List ServiceBuild)
    → HearsItself es ms
    → (is_announced id ms || is_listed id es) ≡ is_announced id ms
announced id es ms h = ground (arith, h id)

-- Two nodes that start a round and get the same messages of its ring, their own among them, have the same
-- services in the same order, whatever services each of them has itself and in whatever order the messages come
-- at each.
pub build_all_agrees :
    (is_known has_init is_known' has_init' : ℕ → Bool) (s t : Sync) (members : List ℕ)
    (ring : RingId) (ms ns : List ServiceBuild)
    → ((id : ℕ) → is_announced id ms ≡ is_announced id ns)
    → HearsItself (local_services is_known has_init 0 64) ms
    → HearsItself (local_services is_known' has_init' 0 64) ns
    → ids_of (build_all (sync_start is_known has_init s members ring) ms).my_service_list
      ≡ ids_of (build_all (sync_start is_known' has_init' t members ring) ns).my_service_list
build_all_agrees is_known has_init is_known' has_init' s t members ring ms ns same hs ht =
    IsSorted-ids_of _ _
      (build_all-IsSorted (sync_start is_known has_init s members ring) ms (
        rw (sync_start_lists is_known has_init s members ring).0
          (local_services-IsSorted is_known has_init 0 64)))
      (build_all-IsSorted (sync_start is_known' has_init' t members ring) ns (
        rw (sync_start_lists is_known' has_init' t members ring).0
          (local_services-IsSorted is_known' has_init' 0 64)))
      (λ id.
        is_listed-build_all id (sync_start is_known has_init s members ring) ms
        ∙ rw (sync_start_lists is_known has_init s members ring).0
            (announced id (local_services is_known has_init 0 64) ms hs)
        ∙ same id
        ∙ sym (
            is_listed-build_all id (sync_start is_known' has_init' t members ring) ns
            ∙ rw (sync_start_lists is_known' has_init' t members ring).0
                (announced id (local_services is_known' has_init' 0 64) ns ht)))
