-- ===== src/Totemsrp/Received/Examples.antt =====
-- update_aru of exec/totemsrp.c at a queue with a hole.
use corosync.Prelude.{ℕ, ◌+◌, ◌≤◌, ◌≡◌, ◌⊎◌, some, arith, ltb, if◌then◌else◌, ◌==◌, add32, sub32}
use corosync.SortQueue.{Sq}
use corosync.SortQueue.Ring.{IsValid}
use corosync.Totemsrp.Received.{Received, update_aru}
use corosync.Totemsrp.Received.Holes.{IsHeld, IsMissing, update_aru_lem}

-- Messages 1 to 3 and 5 are there.
abbrev with_hole : Sq ℕ
with_hole = record {
  head = 0;
  size = 8;
  items = λ i. 10 + i;
  items_inuse = λ i. if i == 4 then 0 else if ltb i 6 then 1 else 0;
  items_miss_count = λ i. 0;
  head_seqid = 0;
  item_count = 8;
  pos_max = 5;
}

with_hole-IsValid : IsValid with_hole
with_hole-IsValid = record {
  positive = omega arith;
  small = omega arith;
  head_in = omega arith;
  word = omega arith;
}

abbrev received : Received
received = record { my_aru = 1; my_high_seq_received = 5 }

update_aru_lem_example :
    (k : ℕ) × (update_aru received with_hole ≡ some (record received { my_aru = add32 1 k }))
    × (k ≤ sub32 5 1)
    × ((j : ℕ) → 1 ≤ j → j ≤ k → IsHeld with_hole 1 j)
    × ((k ≡ sub32 5 1) ⊎ IsMissing with_hole 1 (k + 1))
update_aru_lem_example =
    update_aru_lem received with_hole with_hole-IsValid (λ j p q. omega (arith, p, q))
