-- ===== src/Totemsrp/Release/Examples.antt =====
-- messages_free of exec/totemsrp.c where the numbers wrap.
use corosync.Prelude.{ℕ, suc, ◌+◌, ◌++◌, ◌≡◌, refl, some, [], if◌then◌else◌, ltb, arith, add32}
use corosync.Totemsrp.Release.{Holding, messages_free}
use corosync.Totemsrp.Release.Shift.{messages_in, Shifted, Stands, releases, messages_free_lem}

-- All numbers up to 0xffff_fffe are released; the next three messages are there.
abbrev holding : Holding ℕ
holding = record {
  sort_queue = record {
    head = 3;
    size = 8;
    items = λ i. 70 + i;
    items_inuse = λ i. if ltb i 3 then 0 else if ltb i 6 then 1 else 0;
    items_miss_count = λ i. 0;
    head_seqid = 0xffff_ffff;
    item_count = 8;
    pos_max = 3;
  };
  my_last_aru = 0;
  my_high_delivered = 1;
  last_released = 0xffff_fffe;
  released = [];
}

-- Message `d` has the number 0xffff_fff4 + d.
stands : Stands holding 1 0xffff_fff4 0 10 13 12 13
stands = record {
  valid = record {
    positive = omega arith;
    small = omega arith;
    head_in = omega arith;
    word = omega arith;
  };
  head_at = refl;
  released_at = refl;
  token_at = refl;
  last_at = refl;
  delivered_at = refl;
  lo-gone = omega arith;
  gone-lo = omega arith;
  lo-token = omega arith;
  token-lo = omega arith;
  lo-last = omega arith;
  last-lo = omega arith;
  lo-delivered = omega arith;
  delivered-lo = omega arith;
  in_window = omega arith;
  in_queue = omega arith;
}

messages_free_lem_example :
    (t : Holding ℕ) × (messages_free holding 1 ≡ some t)
    × (t.last_released ≡ add32 0xffff_fff4 (10 + releases 10 13 12 13))
    × (t.released ≡ [] ++ messages_in holding.sort_queue 0 (releases 10 13 12 13))
    × Shifted holding.sort_queue
        (add32 0xffff_fff4 (suc (10 + releases 10 13 12 13)))
        (releases 10 13 12 13)
        t.sort_queue
messages_free_lem_example = messages_free_lem holding 1 0xffff_fff4 0 10 13 12 13 stands
