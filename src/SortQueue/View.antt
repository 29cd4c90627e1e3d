-- ===== src/SortQueue/View.antt =====
-- include/corosync/sq.h as a partial map from the distance behind the head to the stored item.
use corosync.Prelude.{
  ℕ, suc, ◌+◌, ◌%◌, ◌<◌, ◌≡◌, ◌≢◌, refl, false, Option, none, some, inl, inr, arith, u32_mod, add32,
  ltb, ◌==◌, if◌then◌else◌, Bool-cases, slot_cases,
}
use corosync.SortQueue.{Sq, item_add, store, item_get, item_inuse, item_miss_count, items_release}
use corosync.SortQueue.Ring.{
  IsValid, offset, slot, add_position-slot, inuse_position-slot, get_position-slot, get_asserts_lem,
}

module _ {A : Type 0} where
  -- What is stored at a distance from the head.
  unfoldable pub view : Sq A → ℕ → Option A
  view sq d = if sq.items_inuse (slot sq d) == 0 then none else some (sq.items (slot sq d))

  slot-injective :
      (sq : Sq A)
      → IsValid sq
      → (d e : ℕ) → d < sq.size
      → e < sq.size
      → d ≢ e
      → slot sq d ≢ slot sq e
  slot-injective sq v d e p q n = λ h.
      n (ground (arith, h, v.head_in, slot_cases sq.head d sq.size, slot_cases sq.head e sq.size))

  -- Inside the window the assertion of sq_item_get holds, and it returns what the view has there.
  pub item_get-view :
      (sq : Sq A) (seqid : ℕ)
      → IsValid sq
      → seqid < u32_mod
      → offset sq seqid < sq.size
      → item_get sq seqid ≡ some (view sq (offset sq seqid))
  unfolding item_get view
  item_get-view sq seqid v w h =
      rw (get_asserts_lem sq v seqid w h, get_position-slot sq v seqid w h) refl

  pub item_inuse_free :
      (sq : Sq A) (seqid : ℕ)
      → IsValid sq
      → seqid < u32_mod
      → offset sq seqid < sq.size
      → item_inuse sq seqid ≡ false
      → view sq (offset sq seqid) ≡ none
  unfolding item_inuse view
  item_inuse_free sq seqid v w h e = ground (arith, inuse_position-slot sq v seqid w h)

  view-store :
      (sq : Sq A) (item : A) (seqid : ℕ)
      → IsValid sq
      → seqid < u32_mod
      → offset sq seqid < sq.size
      → (d : ℕ) → d < sq.size
      → view (store sq item seqid) d ≡ (if d == offset sq seqid then some item else view sq d)
  unfolding store view
  view-store sq item seqid v w h d p = elim (Bool-cases (d == offset sq seqid)) [
    | inl same ↦ ground (arith, add_position-slot sq v seqid w h)
    | inr other ↦
        ground
          (arith, add_position-slot sq v seqid w h, slot-injective sq v d (offset sq seqid) p h)
  ]

  item_add_free :
      (sq : Sq A) (item : A) (seqid : ℕ)
      → IsValid sq
      → seqid < u32_mod
      → offset sq seqid < sq.size
      → view sq (offset sq seqid) ≡ none
      → item_add sq item seqid ≡ some (store sq item seqid)
  unfolding item_add view
  item_add_free sq item seqid v w h free = ground (arith, add_position-slot sq v seqid w h)

  pub store-IsValid :
      (sq : Sq A) (item : A) (seqid : ℕ) → IsValid sq → IsValid (store sq item seqid)
  unfolding store
  store-IsValid sq item seqid v = ground arith

  -- Inside the window, sq_item_add to a free place succeeds, keeps the queue valid, and changes the
  -- view at that place alone.
  pub item_add-view :
      (sq : Sq A) (item : A) (seqid : ℕ)
      → IsValid sq
      → seqid < u32_mod
      → offset sq seqid < sq.size
      → view sq (offset sq seqid) ≡ none
      → (item_add sq item seqid ≡ some (store sq item seqid))
        × IsValid (store sq item seqid)
        × ((d : ℕ)
            → d < sq.size
            → view (store sq item seqid) d
              ≡ (if d == offset sq seqid then some item else view sq d))
  item_add-view sq item seqid v w h free = (
    item_add_free sq item seqid v w h free,
    store-IsValid sq item seqid v,
    view-store sq item seqid v w h,
  )

  -- Outside of a free place sq_item_add fails its assertion.
  pub item_add_taken :
      (sq : Sq A) (item other : A) (seqid : ℕ)
      → IsValid sq
      → seqid < u32_mod
      → offset sq seqid < sq.size
      → view sq (offset sq seqid) ≡ some other
      → item_add sq item seqid ≡ none
  unfolding item_add view
  item_add_taken sq item other seqid v w h e = ground (arith, add_position-slot sq v seqid w h)

  inuse_release :
      (sq : Sq A) (seqid d : ℕ)
      → IsValid sq
      → seqid < u32_mod
      → offset sq seqid < sq.size
      → d < sq.size
      → (items_release sq seqid).items_inuse (slot (items_release sq seqid) d) ≡ (
          if ltb (d + suc (offset sq seqid)) sq.size
          then sq.items_inuse (slot sq (d + suc (offset sq seqid)))
          else 0)
  unfolding items_release
  inuse_release sq seqid d v w h p = ground (
    arith,
    slot_cases sq.head (suc (offset sq seqid)) sq.size,
    slot_cases ((sq.head + suc (offset sq seqid)) % sq.size) d sq.size,
    slot_cases sq.head (d + suc (offset sq seqid)) sq.size,
  )

  slot_release :
      (sq : Sq A) (seqid d : ℕ)
      → IsValid sq
      → seqid < u32_mod
      → offset sq seqid < sq.size
      → d + suc (offset sq seqid) < sq.size
      → slot (items_release sq seqid) d ≡ slot sq (d + suc (offset sq seqid))
  unfolding items_release
  slot_release sq seqid d v w h p = ground (
    arith,
    slot_cases sq.head (suc (offset sq seqid)) sq.size,
    slot_cases ((sq.head + suc (offset sq seqid)) % sq.size) d sq.size,
    slot_cases sq.head (d + suc (offset sq seqid)) sq.size,
  )

  pub release-IsValid :
      (sq : Sq A) (seqid : ℕ)
      → IsValid sq
      → seqid < u32_mod
      → offset sq seqid < sq.size
      → IsValid (items_release sq seqid)
  unfolding items_release
  release-IsValid sq seqid v w h = ground (arith, v.positive, v.small, v.head_in, v.word)

  head_seqid-release : (sq : Sq A) (seqid : ℕ) → (items_release sq seqid).head_seqid ≡ add32 seqid 1
  unfolding items_release
  head_seqid-release sq seqid = ground arith

  items-release : (sq : Sq A) (seqid : ℕ) → (items_release sq seqid).items ≡ sq.items
  unfolding items_release
  items-release sq seqid = ground arith

  view-release :
      (sq : Sq A) (seqid d : ℕ)
      → IsValid sq
      → seqid < u32_mod
      → offset sq seqid < sq.size
      → d < sq.size
      → view (items_release sq seqid) d ≡ (
          if ltb (d + suc (offset sq seqid)) sq.size
          then view sq (d + suc (offset sq seqid))
          else none)
  unfolding view
  view-release sq seqid d v w h p = ground (
    arith,
    inuse_release sq seqid d v w h p,
    slot_release sq seqid d v w h,
    items-release sq seqid,
  )

  -- sq_items_release of a sequence number in the window moves the window past it: what was stored
  -- behind it keeps its sequence number, and every other place is free.
  pub items_release-view :
      (sq : Sq A) (seqid d : ℕ)
      → IsValid sq
      → seqid < u32_mod
      → offset sq seqid < sq.size
      → d < sq.size
      → IsValid (items_release sq seqid)
        × ((items_release sq seqid).head_seqid ≡ add32 seqid 1)
        × (view (items_release sq seqid) d ≡ (
            if ltb (d + suc (offset sq seqid)) sq.size
            then view sq (d + suc (offset sq seqid))
            else none))
  items_release-view sq seqid d v w h p =
      (release-IsValid sq seqid v w h, head_seqid-release sq seqid, view-release sq seqid d v w h p)

  pub store_keeps :
      (sq : Sq A) (item : A) (seqid : ℕ)
      → ((store sq item seqid).head_seqid ≡ sq.head_seqid) × ((store sq item seqid).size ≡ sq.size)
  unfolding store
  store_keeps sq item seqid = (refl, refl)

  pub items_release_keeps : (sq : Sq A) (seqid : ℕ) → (items_release sq seqid).size ≡ sq.size
  unfolding items_release
  items_release_keeps sq seqid = ground arith

  -- The queue with a miss counted has the same messages.
  pub item_miss_count_keeps :
      (sq : Sq A) (seqid : ℕ)
      → IsValid sq
      → IsValid (item_miss_count sq seqid).0
        × ((item_miss_count sq seqid).0.head_seqid ≡ sq.head_seqid)
        × ((item_miss_count sq seqid).0.size ≡ sq.size)
        × ((d : ℕ) → view (item_miss_count sq seqid).0 d ≡ view sq d)
  unfolding item_miss_count view
  item_miss_count_keeps sq seqid v = (
    record { positive = v.positive; small = v.small; head_in = v.head_in; word = v.word },
    refl,
    refl,
    λ d. refl,
  )

  -- The misses of other numbers in the window stay.
  pub item_miss_count_other :
      (sq : Sq A) (seqid other : ℕ)
      → IsValid sq
      → seqid < u32_mod
      → other < u32_mod
      → offset sq seqid < sq.size
      → offset sq other < sq.size
      → offset sq other ≢ offset sq seqid
      → (item_miss_count (item_miss_count sq seqid).0 other).1 ≡ (item_miss_count sq other).1
  unfolding item_miss_count
  item_miss_count_other sq seqid other v a b p q n = ground (
    arith,
    inuse_position-slot sq v seqid a p,
    inuse_position-slot sq v other b q,
    slot-injective sq v (offset sq other) (offset sq seqid) q p,
  )

  pub free_item_inuse :
      (sq : Sq A) (seqid : ℕ)
      → IsValid sq
      → seqid < u32_mod
      → offset sq seqid < sq.size
      → view sq (offset sq seqid) ≡ none
      → item_inuse sq seqid ≡ false
  unfolding item_inuse view
  free_item_inuse sq seqid v w h e = ground (arith, inuse_position-slot sq v seqid w h)
