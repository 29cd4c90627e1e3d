-- ===== src/Sync/Lists.antt =====
-- The lists of services of exec/sync.c: what is in them, and their order.
use corosync.Prelude.{
  ℕ, ◌<◌, ◌≡◌, refl, ap, ◌∙◌, sym, true, false, ◌||◌, ◌⊎◌, inl, inr, List, [], ◌∷◌, ◌++◌, length,
  length-append, arith, ltb, ltb→lt, ◌==◌, ==→eq, if◌then◌else◌, Bool-cases,
}
use corosync.Sync.{Service, is_listed, is_in, external, add_services, insert_service, sort_services}

abbrev pub AllAbove : ℕ → List Service → Type 0
AllAbove n [] = Unit
AllAbove n (e ∷ es) = (n < e.service_id) × AllAbove n es

-- The identifiers ascend.
abbrev pub IsSorted : List Service → Type 0
IsSorted [] = Unit
IsSorted (e ∷ es) = AllAbove e.service_id es × IsSorted es

-- No identifier is there twice.
abbrev pub IsUnique : List Service → Type 0
IsUnique [] = Unit
IsUnique (e ∷ es) = (is_listed e.service_id es ≡ false) × IsUnique es

is_listed-append :
    (id : ℕ) (es fs : List Service) → is_listed id (es ++ fs) ≡ (is_listed id es || is_listed id fs)
unfolding is_listed
is_listed-append id [] fs = refl
is_listed-append id (e ∷ es) fs = ground (arith, is_listed-append id es fs)

is_listed-insert_service :
    (id : ℕ) (e : Service) (es : List Service)
    → is_listed id (insert_service e es) ≡ (e.service_id == id || is_listed id es)
unfolding is_listed insert_service
is_listed-insert_service id e [] = refl
is_listed-insert_service id e (x ∷ es) = ground (arith, is_listed-insert_service id e es)

pub is_listed-sort_services :
    (id : ℕ) (es : List Service) → is_listed id (sort_services es) ≡ is_listed id es
unfolding is_listed sort_services
is_listed-sort_services id [] = refl
is_listed-sort_services id (e ∷ es) =
    is_listed-insert_service id e (sort_services es)
    ∙ ap (λ b. e.service_id == id || b) (is_listed-sort_services id es)

same_listed : (a b : ℕ) (es : List Service) → (a == b) ≡ true → is_listed b es ≡ is_listed a es
same_listed a b es h = ap (λ n. is_listed n es) (sym (==→eq a b h))

add_one :
    (id x : ℕ) (es : List Service)
    → is_listed id (if is_listed x es then es else es ++ external x ∷ [])
      ≡ (id == x || is_listed id es)
unfolding is_listed
add_one id x es = elim (Bool-cases (is_listed x es)) [
  | inl t ↦ elim (Bool-cases (id == x)) [
    | inl e ↦ rw (t, e) (sym (same_listed id x es e) ∙ t)
    | inr e ↦ rw (t, e) refl
  ]
  | inr t ↦ rw (t, is_listed-append id es (external x ∷ [])) (ground arith)
]

pub is_listed-add_services :
    (id : ℕ) (ids : List ℕ) (es : List Service)
    → is_listed id (add_services ids es) ≡ (is_in id ids || is_listed id es)
unfolding add_services is_in
is_listed-add_services id [] es = refl
is_listed-add_services id (x ∷ ids) es =
    is_listed-add_services id ids (if is_listed x es then es else es ++ external x ∷ [])
    ∙ rw (add_one id x es) (ground arith)

pub AllAbove-unlisted : (n : ℕ) (es : List Service) → AllAbove n es → is_listed n es ≡ false
unfolding is_listed
AllAbove-unlisted n [] h = refl
AllAbove-unlisted n (e ∷ es) h = ground (arith, AllAbove-unlisted n es h.1, h.0)

pub IsSorted-IsUnique : (es : List Service) → IsSorted es → IsUnique es
IsSorted-IsUnique [] h = tt
IsSorted-IsUnique (e ∷ es) h = (AllAbove-unlisted e.service_id es h.0, IsSorted-IsUnique es h.1)

pub AllAbove-trans : (m n : ℕ) (es : List Service) → m < n → AllAbove n es → AllAbove m es
AllAbove-trans m n [] l h = tt
AllAbove-trans m n (e ∷ es) l h = (omega (arith, l, h.0), AllAbove-trans m n es l h.1)

insert_service-AllAbove :
    (n : ℕ) (e : Service) (es : List Service)
    → n < e.service_id
    → AllAbove n es
    → AllAbove n (insert_service e es)
unfolding insert_service
insert_service-AllAbove n e [] l h = (l, tt)
insert_service-AllAbove n e (x ∷ es) l h = elim (Bool-cases (ltb e.service_id x.service_id)) [
  | inl t ↦ rw t (l, h)
  | inr t ↦ rw t (h.0, insert_service-AllAbove n e es l h.1)
]

insert_service-IsSorted :
    (e : Service) (es : List Service)
    → is_listed e.service_id es ≡ false
    → IsSorted es
    → IsSorted (insert_service e es)
unfolding insert_service is_listed
insert_service-IsSorted e [] u h = (tt, tt)
insert_service-IsSorted e (x ∷ es) u h = elim (Bool-cases (ltb e.service_id x.service_id)) [
  | inl t ↦ rw t ((ltb→lt _ _ t, AllAbove-trans e.service_id x.service_id es (ltb→lt _ _ t) h.0), h)
  | inr t ↦ rw t (
    insert_service-AllAbove x.service_id e es (ground (arith, t, u)) h.0,
    insert_service-IsSorted e es (ground (arith, u)) h.1,
  )
]

pub sort_services-IsSorted : (es : List Service) → IsUnique es → IsSorted (sort_services es)
unfolding sort_services
sort_services-IsSorted [] h = tt
sort_services-IsSorted (e ∷ es) h =
    insert_service-IsSorted e (sort_services es) (is_listed-sort_services e.service_id es ∙ h.0)
      (sort_services-IsSorted es h.1)

snoc-IsUnique :
    (x : ℕ) (es : List Service)
    → is_listed x es ≡ false
    → IsUnique es
    → IsUnique (es ++ external x ∷ [])
unfolding is_listed
snoc-IsUnique x [] h u = (refl, tt)
snoc-IsUnique x (e ∷ es) h u = (
  is_listed-append e.service_id es (external x ∷ []) ∙ ground (arith, h, u.0),
  snoc-IsUnique x es (ground (arith, h)) u.1,
)

pub add_services-IsUnique :
    (ids : List ℕ) (es : List Service) → IsUnique es → IsUnique (add_services ids es)
unfolding add_services
add_services-IsUnique [] es u = u
add_services-IsUnique (x ∷ ids) es u = elim (Bool-cases (is_listed x es)) [
  | inl t ↦ rw t (add_services-IsUnique ids es u)
  | inr t ↦ rw t (add_services-IsUnique ids (es ++ external x ∷ []) (snoc-IsUnique x es t u))
]

-- A list that is not longer is the same.
pub add_services_same :
    (ids : List ℕ) (es : List Service)
    → (add_services ids es ≡ es) ⊎ (length es < length (add_services ids es))
unfolding add_services
add_services_same [] es = inl refl
add_services_same (x ∷ ids) es = elim (Bool-cases (is_listed x es)) [
  | inl t ↦ rw t (add_services_same ids es)
  | inr t ↦ rw t (inr (grown ids es x (add_services_same ids (es ++ external x ∷ []))))
]
  where
    grown :
        (ids : List ℕ) (es : List Service) (x : ℕ)
        → (add_services ids (es ++ external x ∷ []) ≡ es ++ external x ∷ [])
          ⊎ (length (es ++ external x ∷ []) < length (add_services ids (es ++ external x ∷ [])))
        → length es < length (add_services ids (es ++ external x ∷ []))
    grown ids es x (inl e) = omega (arith, ap length e, length-append {0} es (external x ∷ []))
    grown ids es x (inr l) = omega (arith, l, length-append {0} es (external x ∷ []))
