-- ===== src/CsQueue/Iterate.antt =====
-- The iterator of exec/cs_queue.h.
use native.Mathlib.Nat.{mod-eq_of_lt}
use corosync.Prelude.{
  ℕ, zero, suc, ◌+◌, ◌%◌, ◌≤◌, ◌≡◌, ◌∙◌, refl, ap, none, some, List, [], ◌∷◌, arith, length,
  slot_cases,
}
use corosync.CsQueue.{CsQueue, item_iterator_init, item_iterator_get, item_iterator_next}
use corosync.CsQueue.Fifo.{IsValid, stored, contents, length-stored}

plus_one : (n : ℕ) → suc n ≡ n + 1
plus_one n = omega arith

module _ {A : Type 0} where
  -- What a loop of cs_queue_item_iterator_get and cs_queue_item_iterator_next reads, until the null
  -- pointer.
  unfoldable pub iterate : ℕ → CsQueue A → List A
  iterate zero q = []
  iterate (suc fuel) q =
      let rest = iterate fuel (item_iterator_next q).0 in
      elim (item_iterator_get q) [ none ↦ [] | some x ↦ x ∷ rest ]

  -- The iterator at a distance behind the tail.
  abbrev at : CsQueue A → ℕ → CsQueue A
  at q d = record q { iterator = (q.tail + suc d) % q.size }

  get_at :
      (q : CsQueue A) (d : ℕ)
      → IsValid q
      → suc d ≤ q.used
      → item_iterator_get (at q d) ≡ some (q.items ((q.tail + suc d) % q.size))
  unfolding item_iterator_get
  get_at q d v h = ground (
    arith,
    v.room,
    v.head_at,
    slot_cases q.tail (suc d) q.size v.tail_in,
    slot_cases q.tail (suc q.used) q.size v.tail_in,
    mod-eq_of_lt {n = (q.tail + suc d) % q.size} {m = q.size},
  )

  get_end : (q : CsQueue A) (d : ℕ) → IsValid q → d ≡ q.used → item_iterator_get (at q d) ≡ none
  unfolding item_iterator_get
  get_end q d v e = rw e (ground (arith, v.head_at))

  next_at :
      (q : CsQueue A) (d : ℕ)
      → IsValid q
      → suc d ≤ q.used
      → (item_iterator_next (at q d)).0 ≡ at q (suc d)
  unfolding item_iterator_next
  next_at q d v h =
      ap (λ i. record q { iterator = i })
        (ground (
          arith,
          v.room,
          slot_cases q.tail (suc d) q.size v.tail_in,
          slot_cases q.tail (suc (suc d)) q.size v.tail_in,
          slot_cases ((q.tail + suc d) % q.size) 1 q.size,
        ))

  iterate_from :
      (q : CsQueue A) (fuel d n : ℕ)
      → IsValid q
      → d + n ≡ q.used
      → suc n ≤ fuel
      → iterate fuel (at q d) ≡ stored q d n
  unfolding iterate stored
  iterate_from q zero d n v e h = ground arith
  iterate_from q (suc fuel) d zero v e h = rw (iterate, get_end q d v (omega (arith, e))) refl
  iterate_from q (suc fuel) d (suc n) v e h =
      rw (iterate, get_at q d v (omega (arith, e)), next_at q d v (omega (arith, e)))
        (ap (λ xs. q.items ((q.tail + suc d) % q.size) ∷ xs)
          (iterate_from q fuel (suc d) n v (omega (arith, e)) (omega (arith, h))))

  -- On a valid queue the loop of the iterator reads all the items that wait, in their order, and
  -- comes to its end after one more step than there are items.
  pub iterate-contents :
      (q : CsQueue A) (fuel : ℕ)
      → IsValid q
      → suc (length (contents q)) ≤ fuel
      → iterate fuel (item_iterator_init q) ≡ contents q
  unfolding contents item_iterator_init
  iterate-contents q fuel v h =
      ap (λ i. iterate fuel (record q { iterator = i % q.size })) (plus_one q.tail)
      ∙ iterate_from q fuel 0 q.used v (omega arith) (omega (arith, h, length-stored q 0 q.used))
