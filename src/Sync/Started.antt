-- ===== src/Sync/Started.antt =====
-- A whole round of exec/sync.c, from sync_start on.
use corosync.Prelude.{
  ℕ, zero, suc, ◌<◌, ◌≡◌, refl, ap, ◌∙◌, sym, subst, Bool, true, false, ◌&&◌, inl, inr, some, List,
  [], ◌∷◌, ◌++◌, length, arith, ltb, ◌==◌, eq→==, if◌then◌else◌, Bool-cases, is_empty,
}
use mathlib.Core.List.{append_assoc}
use corosync.Sync.{
  Service, Sync, RingId, ProcessState, schedule, external, is_listed, is_in, add_services,
  insert_service, sort_services, processors_of, local_services, sync_process_enter,
  sync_process_call_init, sync_servicelist_build_enter, sync_service_build_handler, sync_start,
}
use corosync.Sync.Services.{with_services, sync_process_enter_keeps, sync_start_lists}
use corosync.Sync.Agreement.{ServiceBuild, build_all, is_announced, is_listed-build_all}
use corosync.Sync.Rounds.{
  round, received_from, all_in, completes, AllProcessing, calls, InPhase, Continues, enters,
  round-calls, mark_received-received_from, barrier_reached-received_from,
  clear_processors-received_from,
}
use corosync.Sync.Orders.{IsOrder, AllOrders, AllOrders-AllComplete, IsOrder-completes, not_nil}

abbrev pub senders : List ServiceBuild → List ℕ
senders [] = []
senders (m ∷ ms) = m.nodeid ∷ senders ms

insert_service-AllProcessing :
    (e : Service) (es : List Service)
    → e.state ≡ ProcessState.process
    → AllProcessing es
    → AllProcessing (insert_service e es)
unfolding insert_service
insert_service-AllProcessing e [] p h = (p, tt)
insert_service-AllProcessing e (x ∷ es) p h = elim (Bool-cases (ltb e.service_id x.service_id)) [
  | inl t ↦ rw t (p, h)
  | inr t ↦ rw t (h.0, insert_service-AllProcessing e es p h.1)
]

sort_services-AllProcessing :
    (es : List Service) → AllProcessing es → AllProcessing (sort_services es)
unfolding sort_services
sort_services-AllProcessing [] h = tt
sort_services-AllProcessing (e ∷ es) h =
    insert_service-AllProcessing e (sort_services es) h.0 (sort_services-AllProcessing es h.1)

snoc-AllProcessing :
    (x : ℕ) (es : List Service) → AllProcessing es → AllProcessing (es ++ external x ∷ [])
snoc-AllProcessing x [] h = (refl, tt)
snoc-AllProcessing x (e ∷ es) h = (h.0, snoc-AllProcessing x es h.1)

add_services-AllProcessing :
    (ids : List ℕ) (es : List Service) → AllProcessing es → AllProcessing (add_services ids es)
unfolding add_services
add_services-AllProcessing [] es h = h
add_services-AllProcessing (x ∷ ids) es h = elim (Bool-cases (is_listed x es)) [
  | inl t ↦ rw t (add_services-AllProcessing ids es h)
  | inr t ↦
      rw t (add_services-AllProcessing ids (es ++ external x ∷ []) (snoc-AllProcessing x es h))
]

with_services-AllProcessing :
    (ids : List ℕ) (es : List Service) → AllProcessing es → AllProcessing (with_services ids es)
with_services-AllProcessing ids es h =
    elim (Bool-cases (length (add_services ids es) == length es)) [
      | inl t ↦ rw t (add_services-AllProcessing ids es h)
      | inr t ↦
          rw t (
            sort_services-AllProcessing (add_services ids es) (add_services-AllProcessing ids es h))
    ]

local_services-AllProcessing :
    (is_known has_init : ℕ → Bool) (id n : ℕ)
    → AllProcessing (local_services is_known has_init id n)
unfolding local_services
local_services-AllProcessing is_known has_init id zero = tt
local_services-AllProcessing is_known has_init id (suc n) =
    elim (Bool-cases (is_known id && has_init id)) [
      | inl t ↦ rw t (refl, local_services-AllProcessing is_known has_init (suc id) n)
      | inr t ↦ rw t (local_services-AllProcessing is_known has_init (suc id) n)
    ]

processors_of-received_from : (members : List ℕ) → processors_of members ≡ received_from [] members
unfolding processors_of is_in
processors_of-received_from [] = refl
processors_of-received_from (m ∷ ms) =
    ap (λ ps. record { nodeid = m; received = false } ∷ ps) (processors_of-received_from ms)

no_builds : (ms : List ServiceBuild) → is_empty (senders ms) ≡ true → ms ≡ []
no_builds [] h = refl
no_builds (m ∷ ms) h = cc

module _ (is_known : ℕ → Bool) (members : List ℕ) where
  -- The messages of `seen` have come, and no service has been synchronized.
  record IsBuilding (seen : List ℕ) (s : Sync) : Type 0 where
    processors : s.my_processor_list ≡ received_from seen members
    all_processing : AllProcessing s.my_service_list
    at_start : s.my_processing_idx ≡ 0

  abbrev listed : Sync → List ℕ → ServiceBuild → Sync
  listed s seen m = record s {
    my_service_list = with_services m.service_list s.my_service_list;
    my_processor_list = received_from (m.nodeid ∷ seen) members;
  }

  build_message :
      (seen : List ℕ) (s : Sync) (m : ServiceBuild)
      → IsBuilding seen s
      → sync_service_build_handler s m.nodeid s.my_ring_id m.service_list ≡ (
          if all_in (m.nodeid ∷ seen) members
          then sync_process_enter (listed s seen m)
          else listed s seen m)
  unfolding sync_service_build_handler sync_process_enter
  build_message seen s m h =
      rw
        (
          eq→== s.my_ring_id.rep s.my_ring_id.rep refl,
          eq→== s.my_ring_id.seq s.my_ring_id.seq refl,
          h.processors,
          mark_received-received_from m.nodeid seen members,
          barrier_reached-received_from (m.nodeid ∷ seen) members,
        )
        refl

  -- The services are known, and the first of them is scheduled.
  record IsBuilt (s t : Sync) : Type 0 where
    in_phase : InPhase is_known members [] [] t.my_service_list t
    all_processing : AllProcessing t.my_service_list
    called : t.outputs ≡ s.outputs ++ schedule ∷ []
    ring : t.my_ring_id ≡ s.my_ring_id

  last_build :
      (seen : List ℕ) (s : Sync) (m : ServiceBuild)
      → IsBuilding seen s
      → all_in (m.nodeid ∷ seen) members ≡ true
      → 0 < length (build_all s (m ∷ [])).my_service_list
      → IsBuilt s (build_all s (m ∷ []))
  unfolding build_all
  last_build seen s m h t n =
      let e : sync_service_build_handler s m.nodeid s.my_ring_id m.service_list
          ≡ sync_process_enter (listed s seen m) =
        build_message seen s m h ∙ rw t refl in
      let k : 0 < length (listed s seen m).my_service_list = omega (
        arith,
        n,
        ap (λ u. length u.my_service_list) e,
        ap length (sync_process_enter_keeps (listed s seen m)).0,
      ) in
      subst (λ u. IsBuilt s u) (sym (e ∙ enters (listed s seen m) k))
        record {
          in_phase = record {
            processors = clear_processors-received_from (m.nodeid ∷ seen) members;
            services = refl;
            next = h.at_start;
          };
          all_processing =
              with_services-AllProcessing m.service_list s.my_service_list h.all_processing;
          called = refl;
          ring = refl;
        }

  builds_pass :
      (seen : List ℕ) (s : Sync) (ms : List ServiceBuild)
      → IsBuilding seen s
      → completes members seen (senders ms) ≡ true
      → 0 < length (build_all s ms).my_service_list
      → IsBuilt s (build_all s ms)
  unfolding build_all
  builds_pass seen s [] h c n = absurd (ground (arith, c))
  builds_pass seen s (m ∷ ms) h c n = elim (Bool-cases (all_in (m.nodeid ∷ seen) members)) [
    | inl t ↦
        (let q = no_builds ms (rw t at c) in
          subst (λ xs. IsBuilt s (build_all s (m ∷ xs))) (sym q)
            (last_build seen s m h t
              (subst (λ xs. 0 < length (build_all s (m ∷ xs)).my_service_list) q n)))
    | inr t ↦
        (let e : sync_service_build_handler s m.nodeid s.my_ring_id m.service_list
              ≡ listed s seen m =
            build_message seen s m h ∙ rw t refl in
          let b =
            builds_pass (m.nodeid ∷ seen) (listed s seen m) ms
              record {
                processors = refl;
                all_processing =
                    with_services-AllProcessing m.service_list s.my_service_list h.all_processing;
                at_start = h.at_start;
              }
              (rw t at c) (subst (λ u. 0 < length (build_all u ms).my_service_list) e n) in
          subst (λ u. IsBuilt s (build_all u ms)) (sym e)
            record {
              in_phase = b.in_phase;
              all_processing = b.all_processing;
              called = b.called;
              ring = b.ring;
            })
  ]

listed_some : (id : ℕ) (es : List Service) → is_listed id es ≡ true → 0 < length es
unfolding is_listed
listed_some id [] h = cc
listed_some id (e ∷ es) h = omega arith

start-IsBuilding :
    (is_known has_init : ℕ → Bool) (s : Sync) (members : List ℕ) (ring : RingId)
    → IsBuilding is_known members [] (sync_start is_known has_init s members ring)
unfolding sync_start sync_servicelist_build_enter sync_process_call_init
start-IsBuilding is_known has_init s members ring = record {
  processors = processors_of-received_from members;
  all_processing = local_services-AllProcessing is_known has_init 0 64;
  at_start = refl;
}

continues :
    (is_known : ℕ → Bool) (members : List ℕ) (t : Sync) (es : List Service)
    → InPhase is_known members [] [] es t
    → Continues is_known members [] es t
continues is_known members t [] h = tt
continues is_known members t (e ∷ es) h = h

-- A round ends when no member fails. After sync_start on a ring, once the build message of each member has come
-- and one of them has a service, and when each service is done in its first process call, and the barrier
-- messages of the members come once for each service, in any order: each service in the list is processed and
-- then activated, a barrier message between, and then the next one is scheduled, or the end is told, once.
pub round_completes :
    (is_known has_init : ℕ → Bool) (s : Sync) (m : ℕ) (ms : List ℕ) (ring : RingId)
    (builds : List ServiceBuild) (orders : List (List ℕ)) (id : ℕ)
    → IsOrder (m ∷ ms) (senders builds)
    → is_announced id builds ≡ true
    → AllOrders (m ∷ ms) orders
    → length orders
      ≡ length (build_all (sync_start is_known has_init s (m ∷ ms) ring) builds).my_service_list
    → (t : Sync) × (round is_known
          (build_all (sync_start is_known has_init s (m ∷ ms) ring) builds)
          orders
        ≡ some t)
      × (t.outputs
          ≡ (sync_start is_known has_init s (m ∷ ms) ring).outputs
            ++ (schedule
                ∷ calls is_known ring
                    (build_all
                      (sync_start is_known has_init s (m ∷ ms) ring)
                      builds).my_service_list))
round_completes is_known has_init s m ms ring builds orders id o a k l =
    let u = sync_start is_known has_init s (m ∷ ms) ring in
    let t = build_all u builds in
    let n : 0 < length t.my_service_list =
      listed_some id t.my_service_list (is_listed-build_all id u builds ∙ rw a refl) in
    let b =
      builds_pass is_known (m ∷ ms) [] u builds (start-IsBuilding is_known has_init s (m ∷ ms) ring)
        (IsOrder-completes (m ∷ ms) (senders builds) o (not_nil m ms (senders builds) o)) n in
    let r =
      round-calls is_known (m ∷ ms) orders [] t.my_service_list t
        (continues is_known (m ∷ ms) t t.my_service_list b.in_phase) b.all_processing
        (AllOrders-AllComplete m ms orders k) l in
    (
      r.0,
      r.1,
      r.2
          ∙ ap (λ xs. xs ++ calls is_known t.my_ring_id t.my_service_list) b.called
          ∙ ap (λ g. u.outputs ++ (schedule ∷ []) ++ calls is_known g t.my_service_list)
              (b.ring ∙ (sync_start_lists is_known has_init s (m ∷ ms) ring).1)
          ∙ append_assoc u.outputs (schedule ∷ []) (calls is_known ring t.my_service_list),
    )
