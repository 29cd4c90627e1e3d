-- ===== src/CsQueue.antt =====
-- The circular queue of exec/cs_queue.h. The calls of the mutex are left out: an operation is one step.
pub mod Fifo
pub mod Iterate
mod Examples
use corosync.Prelude.{
  ℕ, zero, suc, ◌+◌, ◌%◌, Bool, true, false, not, Option, none, some, List, [], ◌∷◌, ltb, ◌==◌,
  if◌then◌else◌, add32, sub32, slt32, update, fill,
}

-- struct cs_queue; an item of `size_per_item` bytes is a value of `A`, and an `int` its bit pattern.
pub record CsQueue {ℓ} (A : Type ℓ) : Type ℓ where
  pub head : ℕ
  pub tail : ℕ
  pub used : ℕ
  pub usedhw : ℕ
  pub size : ℕ
  pub items : ℕ → A
  pub iterator : ℕ

-- A bit pattern of an `int` that is not negative.
abbrev pub nonnegative : ℕ → Bool
nonnegative n = ltb n 0x8000_0000

module _ {ℓ} {A : Type ℓ} where
  -- cs_queue_init: whether malloc answers is given, and `none` is -ENOMEM. The iterator is not set.
  pub init : (malloc : Bool) → ℕ → (zeroed : A) → (iterator : ℕ) → Option (CsQueue A)
  init malloc cs_queue_items zeroed iterator =
      if malloc
      then some (record {
        head = 0;
        tail = sub32 cs_queue_items 1;
        used = 0;
        usedhw = 0;
        size = cs_queue_items;
        items = λ _. zeroed;
        iterator = iterator;
      })
      else none

  -- cs_queue_reinit
  pub reinit : CsQueue A → (zeroed : A) → CsQueue A
  reinit q zeroed = record q {
    head = 0;
    tail = sub32 q.size 1;
    used = 0;
    usedhw = 0;
    items = fill q.items 0 q.size zeroed;
  }

  -- cs_queue_is_full: `size - 1 == used`
  pub is_full : CsQueue A → Bool
  is_full q = q.size == suc q.used

  -- cs_queue_is_empty
  unfoldable pub is_empty : CsQueue A → Bool
  is_empty q = q.used == 0

  -- cs_queue_item_add: `none` is the failed assertion that `tail` is not `head`.
  pub item_add : CsQueue A → A → Option (CsQueue A)
  item_add q item =
      let used = add32 q.used 1 in
      if q.tail == q.head
      then none
      else some (record q {
        head = suc q.head % q.size;
        used = used;
        usedhw = if slt32 q.usedhw used then used else q.usedhw;
        items = update q.items q.head item;
      })

  -- cs_queue_item_get
  unfoldable pub item_get : CsQueue A → A
  item_get q = q.items (suc q.tail % q.size)

  -- cs_queue_item_remove: `none` is one of the two failed assertions.
  unfoldable pub item_remove : CsQueue A → Option (CsQueue A)
  item_remove q =
      let tail = suc q.tail % q.size in
      let used = sub32 q.used 1 in
      if tail == q.head
      then none
      else if nonnegative used
      then some (record q { tail = tail; used = used })
      else none

  -- cs_queue_items_remove, for a count that is not negative: only `tail` is asserted.
  pub items_remove : CsQueue A → ℕ → Option (CsQueue A)
  items_remove q rel_count =
      let tail = (q.tail + rel_count) % q.size in
      if tail == q.head
      then none
      else some (record q { tail = tail; used = sub32 q.used rel_count })

  -- cs_queue_item_iterator_init
  pub item_iterator_init : CsQueue A → CsQueue A
  item_iterator_init q = record q { iterator = suc q.tail % q.size }

  -- cs_queue_item_iterator_get: `none` is the null pointer.
  pub item_iterator_get : CsQueue A → Option A
  item_iterator_get q = if q.iterator == q.head then none else some (q.items (q.iterator % q.size))

  -- cs_queue_item_iterator_next: the new queue, and whether the iterator is at the end.
  pub item_iterator_next : CsQueue A → CsQueue A × Bool
  item_iterator_next q =
      let iterator = suc q.iterator % q.size in
      (record q { iterator = iterator }, iterator == q.head)

  -- cs_queue_avail: `none` is the failed assertion that the answer is not negative.
  pub avail : CsQueue A → Option ℕ
  avail q = let n = sub32 (sub32 q.size q.used) 2 in if nonnegative n then some n else none

  -- cs_queue_usedhw
  pub usedhw_of : CsQueue A → ℕ
  usedhw_of q = q.usedhw
