-- ===== src/SortQueue.antt =====
-- The sort queue of include/corosync/sq.h: a ring of slots indexed by a rolling sequence number.
pub mod Seq
pub mod Ring
pub mod View
mod Examples
use corosync.Prelude.{
  ℕ, suc, ◌+◌, ◌-◌, ◌%◌, ◌^◌, ◌≤◌, ◌<◌, ◌≡◌, refl, ◌⊎◌, Bool, true, false, ◌||◌, ◌&&◌, not, Option,
  none, some, arith, ltb, leb, ◌==◌, if◌then◌else◌, u32_mod, add32, sub32, update, fill,
}

-- ADJUST_ROLLOVER_POINT and ADJUST_ROLLOVER_VALUE
abbrev pub adjust_rollover_point : ℕ
adjust_rollover_point = 0x8000_0000

abbrev pub adjust_rollover_value : ℕ
adjust_rollover_value = 0x1_0000

-- sq_lt_compare
unfoldable pub lt_compare : ℕ → ℕ → Bool
lt_compare a b =
    if ltb adjust_rollover_point a || ltb adjust_rollover_point b
    then ltb (sub32 a adjust_rollover_value) (sub32 b adjust_rollover_value)
    else ltb a b

-- sq_lte_compare
unfoldable pub lte_compare : ℕ → ℕ → Bool
lte_compare a b =
    if ltb adjust_rollover_point a || ltb adjust_rollover_point b
    then leb (sub32 a adjust_rollover_value) (sub32 b adjust_rollover_value)
    else leb a b

-- struct sq; an item of `size_per_item` bytes is a value of `A`.
pub record Sq {ℓ} (A : Type ℓ) : Type ℓ where
  pub head : ℕ
  pub size : ℕ
  pub items : ℕ → A
  pub items_inuse : ℕ → ℕ
  pub items_miss_count : ℕ → ℕ
  pub head_seqid : ℕ
  pub item_count : ℕ
  pub pos_max : ℕ

module _ {ℓ} {A : Type ℓ} where
  -- sq_init: what malloc answers for the three arrays is given, and `none` is -ENOMEM.
  pub init : (malloc_items malloc_inuse malloc_miss : Bool) → ℕ → ℕ → A → Option (Sq A)
  init malloc_items malloc_inuse malloc_miss item_count head_seqid zeroed =
      if malloc_items && malloc_inuse && malloc_miss
      then some (record {
        head = 0;
        size = item_count;
        items = λ _. zeroed;
        items_inuse = λ _. 0;
        items_miss_count = λ _. 0;
        head_seqid = head_seqid;
        item_count = item_count;
        pos_max = 0;
      })
      else none

  -- sq_reinit
  pub reinit : Sq A → ℕ → A → Sq A
  reinit sq head_seqid zeroed = record sq {
    head = 0;
    items = fill sq.items 0 sq.item_count zeroed;
    items_inuse = fill sq.items_inuse 0 sq.item_count 0;
    items_miss_count = fill sq.items_miss_count 0 sq.item_count 0;
    head_seqid = head_seqid;
    pos_max = 0;
  }

  -- The slot that sq_item_add writes.
  pub add_position : Sq A → ℕ → ℕ
  add_position sq seqid = sub32 (add32 sq.head seqid) sq.head_seqid % sq.size

  -- The slot that sq_item_inuse and sq_item_miss_count read.
  pub inuse_position : Sq A → ℕ → ℕ
  inuse_position sq seqid = add32 (sub32 sq.head sq.head_seqid) seqid % sq.size

  -- The writes of sq_item_add. The slot keeps the sequence number, or 1 in place of 0.
  unfoldable pub store : Sq A → A → ℕ → Sq A
  unfolding add_position
  store sq item seqid =
      let position = add_position sq seqid in
      record sq {
        pos_max = if ltb sq.pos_max position then position else sq.pos_max;
        items = update sq.items position item;
        items_inuse = update sq.items_inuse position (if seqid == 0 then 1 else seqid);
        items_miss_count = update sq.items_miss_count position 0;
      }

  -- sq_item_add: `none` is the failed assertion that the slot is free.
  unfoldable pub item_add : Sq A → A → ℕ → Option (Sq A)
  item_add sq item seqid =
      if sq.items_inuse (add_position sq seqid) == 0 then some (store sq item seqid) else none

  -- sq_item_inuse
  unfoldable pub item_inuse : Sq A → ℕ → Bool
  unfolding inuse_position
  item_inuse sq seqid = not (sq.items_inuse (inuse_position sq seqid) == 0)

  -- sq_item_miss_count: counts one more miss, and returns the count.
  unfoldable pub item_miss_count : Sq A → ℕ → Sq A × ℕ
  unfolding inuse_position
  item_miss_count sq seqid =
      let position = inuse_position sq seqid in
      let count = add32 (sq.items_miss_count position) 1 in
      (record sq { items_miss_count = update sq.items_miss_count position count }, count)

  -- sq_in_range
  unfoldable pub in_range : Sq A → ℕ → Bool
  in_range sq seqid =
      if ltb adjust_rollover_point sq.head_seqid
      then not (ltb (sub32 seqid adjust_rollover_value) (sub32 sq.head_seqid adjust_rollover_value))
        && not (
            leb (add32 (sub32 sq.head_seqid adjust_rollover_value) sq.size)
              (sub32 seqid adjust_rollover_value))
      else not (ltb seqid sq.head_seqid) && not (leb (add32 sq.head_seqid sq.size) seqid)

  -- The slot that sq_item_get reads, and the assertion before the read.
  pub get_position : Sq A → ℕ → ℕ
  get_position sq seqid =
      if ltb adjust_rollover_point seqid
      then add32
          (sub32 (sub32 sq.head adjust_rollover_value) (sub32 sq.head_seqid adjust_rollover_value))
          seqid
        % sq.size
      else add32 (sub32 sq.head sq.head_seqid) seqid % sq.size

  pub get_asserts : Sq A → ℕ → Bool
  get_asserts sq seqid =
      if ltb adjust_rollover_point seqid
      then ltb (sub32 seqid adjust_rollover_point)
          (add32 (sub32 sq.head_seqid adjust_rollover_point) sq.size)
      else ltb seqid (add32 sq.head_seqid sq.size)

  -- sq_item_get: the outer `none` is a failed assertion, the inner one is ENOENT.
  unfoldable pub item_get : Sq A → ℕ → Option (Option A)
  unfolding get_position get_asserts
  item_get sq seqid =
      if get_asserts sq seqid
      then some (
          if sq.items_inuse (get_position sq seqid) == 0
          then none
          else some (sq.items (get_position sq seqid)))
      else none

  -- sq_items_release
  unfoldable pub items_release : Sq A → ℕ → Sq A
  items_release sq seqid =
      let head = add32 (sub32 (add32 sq.head seqid) sq.head_seqid) 1 % sq.size in
      let count = add32 (sub32 seqid sq.head_seqid) 1 in
      if ltb sq.size (add32 (sub32 (add32 sq.head seqid) sq.head_seqid) 1)
      then record sq {
        head = head;
        items_inuse = fill (fill sq.items_inuse sq.head (sub32 sq.size sq.head) 0) 0 head 0;
        head_seqid = add32 seqid 1;
      }
      else record sq {
        head = head;
        items_inuse = fill sq.items_inuse sq.head count 0;
        items_miss_count = fill sq.items_miss_count sq.head count 0;
        head_seqid = add32 seqid 1;
      }
