-- ===== src/Totemsrp/Multicast/Examples.antt =====
-- The multicast of exec/totemsrp.c at two queues that wrap.
use corosync.Prelude.{
  ℕ, zero, suc, ◌+◌, ◌≡◌, refl, some, [], ◌++◌, take, drop, arith, if◌then◌else◌, ◌==◌,
}
use corosync.CsQueue.Fifo
use corosync.CsQueue.Fifo.{contents}
use corosync.SortQueue.Ring
use corosync.SortQueue.Ring.{offset}
use corosync.SortQueue.View.{view}
use corosync.Totemsrp.Multicast.{Ordering, send_messages}
use corosync.Totemsrp.Multicast.Order.{InRoom, numbered, send_messages_lem}

-- Two messages wait, and the numbers 1 and 2 are free.
abbrev holder : Ordering ℕ
holder = record {
  queue = record {
    head = 1;
    tail = 2;
    used = 2;
    usedhw = 3;
    size = 4;
    items = λ i. 70 + i;
    iterator = 0;
  };
  sort_queue = record {
    head = 3;
    size = 4;
    items = λ i. 90 + i;
    items_inuse = λ i. if i == 3 then 0xffff_ffff else if i == 0 then 1 else 0;
    items_miss_count = λ i. 0;
    head_seqid = 0xffff_ffff;
    item_count = 4;
    pos_max = 3;
  };
  sent = [];
  token_seq = 0;
  received = record { my_aru = 0; my_high_seq_received = 0 };
}

queue-IsValid : Fifo.IsValid holder.queue
queue-IsValid = record {
  small = omega arith;
  tail_in = omega arith;
  room = omega arith;
  head_at = refl;
  high = omega arith;
}

sort_queue-IsValid : Ring.IsValid holder.sort_queue
sort_queue-IsValid = record {
  positive = omega arith;
  small = omega arith;
  head_in = omega arith;
  word = omega arith;
}

two_free : InRoom holder.sort_queue 0 2
unfolding view
two_free zero p q = absurd (omega (arith, p))
two_free (suc zero) p q = (omega arith, refl)
two_free (suc (suc zero)) p q = (omega arith, refl)
two_free (suc (suc (suc j))) p q = absurd (omega (arith, q))

send_messages_lem_example :
    (t : Ordering ℕ) × (send_messages holder 2 ≡ some t)
    × (t.sent ≡ [] ++ numbered 0 (take 2 (contents holder.queue)))
    × (contents t.queue ≡ drop 2 (contents holder.queue))
    × Fifo.IsValid t.queue
    × Ring.IsValid t.sort_queue
send_messages_lem_example =
    send_messages_lem holder 2 queue-IsValid sort_queue-IsValid (omega arith) two_free
