-- ===== src/Sync/Services.antt =====
-- The service list of exec/sync.c while the messages of a new ring come in.
use corosync.Prelude.{
  ℕ, zero, suc, ◌≤◌, ◌<◌, ◌≡◌, refl, ap, ◌∙◌, sym, subst, Bool, ◌&&◌, ◌||◌, inl, inr, List, [], ◌∷◌,
  length, arith, ltb, ltb→lt, ◌==◌, ==→eq, ne→==_false, eq→==, if◌then◌else◌, Bool-cases,
}
use corosync.Sync.{
  Service, Sync, RingId, is_listed, is_in, add_services, sort_services, ids_of, sync_process_enter,
  sync_service_build_handler, local_services, sync_start, sync_servicelist_build_enter,
  sync_process_call_init,
}
use corosync.Sync.Lists.{
  AllAbove, AllAbove-unlisted, AllAbove-trans, IsSorted, IsSorted-IsUnique, is_listed-sort_services,
  is_listed-add_services, sort_services-IsSorted, add_services-IsUnique, add_services_same,
}

-- What the handler does with the list.
abbrev pub with_services : List ℕ → List Service → List Service
with_services ids es =
    let added = add_services ids es in
    if length added == length es then added else sort_services added

pub with_services-IsSorted :
    (ids : List ℕ) (es : List Service) → IsSorted es → IsSorted (with_services ids es)
with_services-IsSorted ids es h = elim (add_services_same ids es) [
  | inl e ↦ rw (e, eq→== (length es) (length es) refl) h
  | inr l ↦
      rw
        (ne→==_false (length (add_services ids es)) (length es) (λ e. absurd (omega (arith, e, l))))
        (sort_services-IsSorted (add_services ids es)
          (add_services-IsUnique ids es (IsSorted-IsUnique es h)))
]

pub is_listed-with_services :
    (id : ℕ) (ids : List ℕ) (es : List Service)
    → is_listed id (with_services ids es) ≡ (is_in id ids || is_listed id es)
is_listed-with_services id ids es = elim (Bool-cases (length (add_services ids es) == length es)) [
  | inl t ↦ rw t (is_listed-add_services id ids es)
  | inr t ↦
      rw t (is_listed-sort_services id (add_services ids es) ∙ is_listed-add_services id ids es)
]

pub sync_process_enter_keeps :
    (s : Sync)
    → ((sync_process_enter s).my_service_list ≡ s.my_service_list)
      × ((sync_process_enter s).my_ring_id ≡ s.my_ring_id)
unfolding sync_process_enter
sync_process_enter_keeps s = ground arith

pub build_handler_lists :
    (s : Sync) (nodeid : ℕ) (ids : List ℕ)
    → ((sync_service_build_handler s nodeid s.my_ring_id ids).my_service_list
        ≡ with_services ids s.my_service_list)
      × ((sync_service_build_handler s nodeid s.my_ring_id ids).my_ring_id ≡ s.my_ring_id)
unfolding sync_service_build_handler sync_process_enter
build_handler_lists s nodeid ids = ground arith

local_services-AllAbove :
    (is_known has_init : ℕ → Bool) (m id n : ℕ)
    → m < id
    → AllAbove m (local_services is_known has_init id n)
unfolding local_services
local_services-AllAbove is_known has_init m id zero h = tt
local_services-AllAbove is_known has_init m id (suc n) h =
    elim (Bool-cases (is_known id && has_init id)) [
      | inl t ↦ rw t (h, local_services-AllAbove is_known has_init m (suc id) n (omega (arith, h)))
      | inr t ↦ rw t (local_services-AllAbove is_known has_init m (suc id) n (omega (arith, h)))
    ]

pub local_services-IsSorted :
    (is_known has_init : ℕ → Bool) (id n : ℕ) → IsSorted (local_services is_known has_init id n)
unfolding local_services
local_services-IsSorted is_known has_init id zero = tt
local_services-IsSorted is_known has_init id (suc n) =
    elim (Bool-cases (is_known id && has_init id)) [
      | inl t ↦ rw t (
        local_services-AllAbove is_known has_init id (suc id) n (omega arith),
        local_services-IsSorted is_known has_init (suc id) n,
      )
      | inr t ↦ rw t (local_services-IsSorted is_known has_init (suc id) n)
    ]

pub sync_start_lists :
    (is_known has_init : ℕ → Bool) (s : Sync) (members : List ℕ) (ring : RingId)
    → ((sync_start is_known has_init s members ring).my_service_list
        ≡ local_services is_known has_init 0 64)
      × ((sync_start is_known has_init s members ring).my_ring_id ≡ ring)
unfolding sync_start sync_servicelist_build_enter sync_process_call_init
sync_start_lists is_known has_init s members ring = (refl, refl)

heads :
    (e f : Service) (es fs : List Service)
    → IsSorted (e ∷ es)
    → IsSorted (f ∷ fs)
    → is_listed e.service_id (e ∷ es) ≡ is_listed e.service_id (f ∷ fs)
    → f.service_id ≤ e.service_id
unfolding is_listed
heads e f es fs s t h = elim (Bool-cases (ltb e.service_id f.service_id)) [
  | inl l ↦ ground (
    arith,
    h,
    l,
    AllAbove-unlisted e.service_id fs
        (AllAbove-trans e.service_id f.service_id fs (ltb→lt _ _ l) t.0),
  )
  | inr l ↦ ground (arith, l)
]

tails :
    (id : ℕ) (e f : Service) (es fs : List Service)
    → e.service_id ≡ f.service_id
    → IsSorted (e ∷ es)
    → IsSorted (f ∷ fs)
    → is_listed id (e ∷ es) ≡ is_listed id (f ∷ fs)
    → is_listed id es ≡ is_listed id fs
unfolding is_listed
tails id e f es fs q s t h = elim (Bool-cases (e.service_id == id)) [
  | inl l ↦
      subst (λ n. is_listed n es ≡ is_listed n fs) (==→eq _ _ l)
        (AllAbove-unlisted e.service_id es s.0
          ∙ sym (AllAbove-unlisted e.service_id fs (subst (λ n. AllAbove n fs) (sym q) t.0)))
  | inr l ↦ ground (arith, l, q, h)
]

-- Ascending lists with the same identifiers are the same.
pub IsSorted-ids_of :
    (es fs : List Service)
    → IsSorted es
    → IsSorted fs
    → ((id : ℕ) → is_listed id es ≡ is_listed id fs)
    → ids_of es ≡ ids_of fs
unfolding is_listed
IsSorted-ids_of [] [] s t h = refl
IsSorted-ids_of [] (f ∷ fs) s t h = ground (arith, h f.service_id)
IsSorted-ids_of (e ∷ es) [] s t h = ground (arith, h e.service_id)
IsSorted-ids_of (e ∷ es) (f ∷ fs) s t h =
    let same : e.service_id ≡ f.service_id =
      omega
        (arith, heads e f es fs s t (h e.service_id), heads f e fs es t s (sym (h f.service_id))) in
    rw same (
      ap (λ ids. f.service_id ∷ ids)
        (IsSorted-ids_of es fs s.1 t.1 (λ id. tails id e f es fs same s t (h id))))
