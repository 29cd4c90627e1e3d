-- ===== src/CsQueue/Fifo.antt =====
-- exec/cs_queue.h as a list: items are added at its end and removed from its front.
use corosync.Prelude.{
  ==→eq, ℕ, zero, suc, ◌+◌, ◌-◌, ◌%◌, ◌≤◌, ◌<◌, ◌≡◌, refl, ap, sym, ◌∙◌, true, false, none, some,
  List, [], ◌∷◌, ◌++◌, drop, arith, ltb, if◌then◌else◌, update, length, slot_cases,
}
use corosync.CsQueue.{
  CsQueue, init, reinit, is_full, is_empty, item_add, item_get, item_remove, items_remove, avail,
}

-- The head is `used` slots behind the one after the tail, and one slot is always free.
pub record IsValid {A : Type 0} (q : CsQueue A) : Type 0 where
  pub small : q.size < 0x8000_0000
  pub tail_in : q.tail < q.size
  pub room : q.used < q.size
  pub head_at : q.head ≡ (q.tail + suc q.used) % q.size
  pub high : q.usedhw < 0x8000_0000

more : (n m : ℕ) → suc n + m ≡ suc (n + m)
more n m = omega arith

one_more : (n : ℕ) → n + 1 ≡ suc n
one_more n = omega arith

refill : (r n : ℕ) → r ≤ n → r + (n - r) ≡ n
refill r n h = omega arith

module _ {A : Type 0} where
  -- The items at a number of places from a distance behind the tail on.
  unfoldable pub stored : CsQueue A → ℕ → ℕ → List A
  stored q d zero = []
  stored q d (suc n) = q.items ((q.tail + suc d) % q.size) ∷ stored q (suc d) n

  -- The items that wait, the first to leave first.
  unfoldable pub contents : CsQueue A → List A
  contents q = stored q 0 q.used

  pub length-stored : (q : CsQueue A) (d n : ℕ) → length (stored q d n) ≡ n
  unfolding stored
  length-stored q d zero = refl
  length-stored q d (suc n) = ap suc (length-stored q (suc d) n)

  stored_snoc :
      (q : CsQueue A) (d n : ℕ)
      → stored q d (suc n) ≡ stored q d n ++ q.items ((q.tail + suc (d + n)) % q.size) ∷ []
  unfolding stored
  stored_snoc q d zero = ground arith
  stored_snoc q d (suc n) =
      ap (λ xs. q.items ((q.tail + suc d) % q.size) ∷ xs)
        (stored_snoc q (suc d) n
          ∙ ap (λ k. stored q (suc d) n ++ q.items ((q.tail + suc k) % q.size) ∷ []) (omega arith))

  -- What adding an item makes of the queue.
  abbrev pub added : CsQueue A → A → CsQueue A
  added q item = record q {
    head = suc q.head % q.size;
    used = suc q.used;
    usedhw = if ltb q.usedhw (suc q.used) then suc q.used else q.usedhw;
    items = update q.items q.head item;
  }

  stored-added :
      (q : CsQueue A) (item : A) (d n : ℕ)
      → IsValid q
      → d + n ≤ q.used
      → stored (added q item) d n ≡ stored q d n
  unfolding stored
  stored-added q item d zero v h = refl
  stored-added q item d (suc n) v h = rw (stored-added q item (suc d) n v (omega (arith, h))) (
      ground (
        arith,
        v.head_at,
        slot_cases q.tail (suc d) q.size v.tail_in,
        slot_cases q.tail (suc q.used) q.size v.tail_in,
      ))

  added-IsValid :
      (q : CsQueue A) (item : A) → IsValid q → suc q.used < q.size → IsValid (added q item)
  added-IsValid q item v h = record {
    small = v.small;
    tail_in = v.tail_in;
    room = h;
    head_at = ground (
      arith,
      v.head_at,
      slot_cases q.tail (suc q.used) q.size v.tail_in,
      slot_cases q.tail (suc (suc q.used)) q.size v.tail_in,
      slot_cases q.head 1 q.size,
    );
    high = ground (arith, v.high, v.small);
  }

  added-contents :
      (q : CsQueue A) (item : A) → IsValid q → contents (added q item) ≡ contents q ++ item ∷ []
  unfolding contents
  added-contents q item v =
      stored_snoc (added q item) 0 q.used
      ∙ rw (stored-added q item 0 q.used v (omega arith))
          (ap (λ x. stored q 0 q.used ++ x ∷ []) (ground (arith, v.head_at)))

  item_add_lem :
      (q : CsQueue A) (item : A)
      → IsValid q
      → item_add q item ≡ (if is_full q then none else some (added q item))
  unfolding item_add is_full
  item_add_lem q item v =
      ground
        (arith, v.head_at, v.small, v.room, v.high, slot_cases q.tail (suc q.used) q.size v.tail_in)

  -- A valid queue that is not full takes the item, stays valid, and has it behind all the others.
  pub item_add-contents :
      (q : CsQueue A) (item : A)
      → IsValid q
      → is_full q ≡ false
      → (t : CsQueue A) × (item_add q item ≡ some t)
        × IsValid t
        × (contents t ≡ contents q ++ item ∷ [])
  unfolding is_full
  item_add-contents q item v h = (
    added q item,
    item_add_lem q item v ∙ ap (λ b. if b then none else some (added q item)) h,
    added-IsValid q item v (ground (arith, v.room)),
    added-contents q item v,
  )

  -- A valid queue is full when all its slots but one hold an item, and then adding fails its assertion.
  pub item_add_full :
      (q : CsQueue A) (item : A)
      → IsValid q
      → suc (length (contents q)) ≡ q.size
      → (is_full q ≡ true) × (item_add q item ≡ none)
  unfolding is_full contents
  item_add_full q item v h =
      (full, item_add_lem q item v ∙ ap (λ b. if b then none else some (added q item)) full)
    where
      full : is_full q ≡ true
      full = ground (arith, length-stored q 0 q.used)

  stored_same : (q : CsQueue A) (d e n m : ℕ) → d ≡ e → n ≡ m → stored q d n ≡ stored q e m
  stored_same q d e n m h k = ap (λ i. stored q i n) h ∙ ap (λ i. stored q e i) k

  drop-stored : (q : CsQueue A) (d n m : ℕ) → drop n (stored q d (n + m)) ≡ stored q (d + n) m
  unfolding stored
  drop-stored q d zero m = stored_same q d (d + 0) (0 + m) m (omega arith) (omega arith)
  drop-stored q d (suc n) m =
      ap (λ k. drop (suc n) (stored q d k)) (more n m)
      ∙ drop-stored q (suc d) n m
      ∙ stored_same q (suc d + n) (d + suc n) m m (omega arith) refl

  -- What removing items makes of the queue.
  abbrev pub removed : CsQueue A → ℕ → CsQueue A
  removed q n = record q { tail = (q.tail + n) % q.size; used = q.used - n }

  stored-removed :
      (q : CsQueue A) (r d n : ℕ)
      → IsValid q
      → r + d + n ≤ q.used
      → stored (removed q r) d n ≡ stored q (r + d) n
  unfolding stored
  stored-removed q r d zero v h = refl
  stored-removed q r d (suc n) v h = rw (stored-removed q r (suc d) n v (omega (arith, h))) (
      ground (
        arith,
        v.room,
        slot_cases q.tail r q.size v.tail_in,
        slot_cases ((q.tail + r) % q.size) (suc d) q.size,
        slot_cases q.tail (suc (r + d)) q.size v.tail_in,
      ))

  removed-IsValid : (q : CsQueue A) (r : ℕ) → IsValid q → r ≤ q.used → IsValid (removed q r)
  removed-IsValid q r v h = record {
    small = v.small;
    tail_in = ground (arith, v.room, v.tail_in, slot_cases q.tail r q.size v.tail_in);
    room = omega (arith, v.room);
    head_at = ground (
      arith,
      v.room,
      v.head_at,
      slot_cases q.tail r q.size v.tail_in,
      slot_cases ((q.tail + r) % q.size) (suc (q.used - r)) q.size,
      slot_cases q.tail (suc q.used) q.size v.tail_in,
    );
    high = v.high;
  }

  removed-contents :
      (q : CsQueue A) (r : ℕ)
      → IsValid q
      → r ≤ q.used
      → contents (removed q r) ≡ drop r (contents q)
  unfolding contents
  removed-contents q r v h =
      stored-removed q r 0 (q.used - r) v (omega arith)
      ∙ stored_same q (r + 0) (0 + r) (q.used - r) (q.used - r) (omega arith) refl
      ∙ sym (drop-stored q 0 r (q.used - r))
      ∙ ap (λ k. drop r (stored q 0 k)) (refill r q.used h)

  -- Removing one item or more, but no more than wait, keeps a valid queue valid, and drops the first of them.
  pub items_remove-contents :
      (q : CsQueue A) (rel_count : ℕ)
      → IsValid q
      → 0 < rel_count
      → rel_count ≤ length (contents q)
      → (t : CsQueue A) × (items_remove q rel_count ≡ some t)
        × IsValid t
        × (contents t ≡ drop rel_count (contents q))
  unfolding items_remove contents
  items_remove-contents q r v p h = (
    removed q r,
    ground (
      arith,
      v.room,
      v.small,
      v.head_at,
      few,
      slot_cases q.tail r q.size v.tail_in,
      slot_cases q.tail (suc q.used) q.size v.tail_in,
    ),
    removed-IsValid q r v few,
    removed-contents q r v few,
  )
    where
      few : r ≤ q.used
      few = omega (arith, h, length-stored q 0 q.used)

  -- A valid queue that is not empty gives the item that waits longest, and removes just that one.
  pub item_remove-contents :
      (q : CsQueue A)
      → IsValid q
      → is_empty q ≡ false
      → (t : CsQueue A) × (item_remove q ≡ some t)
        × IsValid t
        × (contents q ≡ item_get q ∷ contents t)
  unfolding item_remove item_get is_empty contents stored
  item_remove-contents q v h = (
    removed q 1,
    ground (
      arith,
      v.room,
      v.small,
      v.head_at,
      slot_cases q.tail 1 q.size v.tail_in,
      slot_cases q.tail (suc q.used) q.size v.tail_in,
    ),
    removed-IsValid q 1 v some_used,
    stored_same q 0 0 q.used (suc (q.used - 1)) refl (omega (arith, some_used))
        ∙ ap (λ i. q.items (i % q.size) ∷ stored q 1 (q.used - 1)) (one_more q.tail)
        ∙ ap (λ xs. item_get q ∷ xs)
            (sym (stored-removed q 1 0 (q.used - 1) v (omega (arith, some_used)))),
  )
    where
      some_used : 1 ≤ q.used
      some_used = ground arith

  -- On a valid queue cs_queue_avail answers the slots less the items that wait less 2, and fails its
  -- assertion when the queue is full.
  pub avail_lem :
      (q : CsQueue A)
      → IsValid q
      → avail q ≡ (if is_full q then none else some (q.size - length (contents q) - 2))
  unfolding avail is_full contents
  avail_lem q v = rw (length-stored q 0 q.used) (ground (arith, v.room, v.small))

  -- A queue that is set up with between 1 and 2 ^ 31 - 1 slots, or set up again, is valid and empty.
  pub init-contents :
      (slots : ℕ) (zeroed : A) (iterator : ℕ)
      → 0 < slots
      → slots < 0x8000_0000
      → (q : CsQueue A) × (init true slots zeroed iterator ≡ some q)
        × IsValid q
        × (contents q ≡ [])
        × IsValid (reinit q zeroed)
        × (contents (reinit q zeroed) ≡ [])
  unfolding init reinit contents stored
  init-contents n zeroed iterator h k = (
    _,
    refl,
    record {
      small = k;
      tail_in = omega arith;
      room = h;
      head_at = ground (arith, slot_cases (n - 1) 1 n);
      high = omega arith;
    },
    refl,
    record {
      small = k;
      tail_in = omega arith;
      room = h;
      head_at = ground (arith, slot_cases (n - 1) 1 n);
      high = omega arith;
    },
    refl,
  )

  nothing_stored : (q : CsQueue A) (n : ℕ) → n ≡ 0 → stored q 0 n ≡ []
  unfolding stored
  nothing_stored q zero h = refl
  nothing_stored q (suc n) h = absurd (omega (arith, h))

  pub contents-is_empty : (q : CsQueue A) → is_empty q ≡ true → contents q ≡ []
  unfolding is_empty contents
  contents-is_empty q h = nothing_stored q q.used (==→eq q.used 0 h)
