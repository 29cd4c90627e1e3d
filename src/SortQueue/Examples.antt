-- ===== src/SortQueue/Examples.antt =====
-- The theorems about include/corosync/sq.h at concrete queues.
use corosync.Prelude.{ℕ, ◌+◌, ◌≡◌, refl, none, some, arith, ◌==◌, if◌then◌else◌}
use corosync.SortQueue.{Sq, item_get}
use corosync.SortQueue.Ring.{IsValid, offset}
use corosync.SortQueue.View.{view}

-- Four slots, the head at slot 3 and one before the wrap of the sequence numbers.
abbrev wrapping : Sq ℕ
wrapping = record {
  head = 3;
  size = 4;
  items = λ i. 70 + i;
  items_inuse = λ i. if i == 3 then 0xffff_ffff else if i == 0 then 1 else 0;
  items_miss_count = λ _. 0;
  head_seqid = 0xffff_ffff;
  item_count = 4;
  pos_max = 3;
}

wrapping-IsValid : IsValid wrapping
wrapping-IsValid = omega arith

free_place : view wrapping (offset wrapping 1) ≡ none
unfolding view
free_place = refl

-- The item behind the wrap, read back.
item_get_wrapped : item_get wrapping 0 ≡ some (some 70)
unfolding item_get
item_get_wrapped = refl
