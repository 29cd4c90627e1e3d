-- ===== src/Totemsrp/Node/Examples.antt =====
-- A node of exec/totemsrp.c at a ring whose numbers wrap, where message 13 is missing.
mod Turns
use corosync.Prelude.{
  Option, ℕ, ◌+◌, ◌-◌, ◌%◌, ◌≤◌, ◌<◌, ◌≡◌, refl, ap, ◌∙◌, true, false, none, some, [], ◌∷◌, ◌++◌,
  inl, inr, ◌⊎◌, arith, ltb, ◌==◌, ◌||◌, if◌then◌else◌, Bool-cases,
}
use corosync.CsQueue.{CsQueue}
use corosync.SortQueue.{Sq}
use corosync.SortQueue.View.{view}
use corosync.Totemsrp.Membership.{Instance, MembState}
use corosync.Totemsrp.Deliver.{Mcast, messages_deliver_to_app}
use corosync.Totemsrp.Deliver.Window.{Shows}
use corosync.Totemsrp.Deliver.InOrder.{deliveries, Delivers, messages_deliver_to_app_in_order}
use corosync.Totemsrp.Deliver.Transitional.{from_members, messages_deliver_to_app_skips}
use corosync.Totemsrp.Retransmit.{Rtr, orf_token_rtr}
use corosync.Totemsrp.Retransmit.Missing.{Done, orf_token_rtr_lem}
use corosync.Totemsrp.Node.{RingNode, OrfToken, message_handler_mcast}
use corosync.Totemsrp.Node.Token.{Config, Arrivals}
use corosync.Totemsrp.Node.Handler.{message_handler_orf_token}
use corosync.Totemsrp.Node.Window.{Outgoing, Ordered, Keeps}
use corosync.Totemsrp.Node.Packets.{message_packet, message_handler_mcast-Keeps}
use corosync.Totemsrp.Node.Taken.{Handles, Fits}
use corosync.Totemsrp.Node.Handled.{message_handler_orf_token_lem}
use corosync.Totemsrp.Node.Runs.{here, packet, turn}
use corosync.Totemsrp.Node.Order.{Precedes, Runs-Precedes}

abbrev pub base : ℕ
base = 0xffff_fff4

abbrev pub ring : ℕ → Mcast
ring d = record {
  nodeid = 1 + d % 2;
  system_from = 1 + d % 2;
  other_order = false;
  payload = d ∷ [];
}

-- Messages 11, 12 and 14 are there; message 11 has the number 0xffff_ffff.
abbrev sort_queue : Sq Mcast
sort_queue = record {
  head = 0;
  size = 16384;
  items = λ i. ring (11 + i);
  items_inuse = λ i. if ltb i 2 || i == 3 then 1 else 0;
  items_miss_count = λ i. 4;
  head_seqid = 0xffff_ffff;
  item_count = 16384;
  pos_max = 3;
}

place : (d : ℕ) → 11 ≤ d → d < 11 + 16384 → 11 + (0 + (d - 11)) % 16384 ≡ d
place d p q = omega (arith, p, q)

window : Shows ring base 11 sort_queue
unfolding view
window = record {
  valid = record {
    positive = omega arith;
    small = omega arith;
    head_in = omega arith;
    word = omega arith;
  };
  head_at = refl;
  agrees = λ d p q.
      let i = (0 + (d - 11)) % 16384 in
      elim (Bool-cases ((if ltb i 2 || i == 3 then 1 else 0) == 0)) [
        | inl free ↦ inl (ap (λ b. if b then none else some (ring (11 + i))) free)
        | inr used ↦ inr (
            ap (λ b. if b then none else some (ring (11 + i))) used
            ∙ ap (λ n. some (ring n)) (place d p q))
      ];
}

none_above : (d : ℕ) → 14 < d → d < 11 + 16384 → view sort_queue (d - 11) ≡ none
unfolding view
none_above d p q =
    let i = (0 + (d - 11)) % 16384 in
    let free : ((if ltb i 2 || i == 3 then 1 else 0) == 0) ≡ true = ground (arith, p, q) in
    ap (λ b. if b then none else some (ring (11 + i))) free

-- One message waits to be sent.
abbrev waiting : CsQueue Mcast
waiting = record {
  head = 2;
  tail = 0;
  used = 1;
  usedhw = 1;
  size = 4;
  items = λ i. ring 15;
  iterator = 0;
}

abbrev pub outgoing : Outgoing
outgoing = record { waiting = waiting; multicasts = [] }

abbrev pub membership : Instance
membership = record {
  my_id = 1;
  failed_to_recv = false;
  flushing = false;
  memb_state = MembState.operational;
  consensus_list = [];
  my_proc_list = 1 ∷ 2 ∷ [];
  my_failed_list = [];
  my_memb_list = 1 ∷ 2 ∷ [];
  my_leave_memb_list = [];
  orf_token_discard = false;
  originated_orf_token = false;
  my_ring_rep = 1;
  my_ring_seq = 8;
  token_ring_id_seq = 8;
  commit_token = none;
  join_messages_sent = [];
}

abbrev pub node : RingNode
node = record {
  membership = membership;
  regular_sort_queue = sort_queue;
  recovery_sort_queue = sort_queue;
  new_message_queue = waiting;
  new_message_queue_trans = waiting;
  retrans_message_queue = waiting;
  waiting_trans_ack = false;
  received = record { my_aru = 0; my_high_seq_received = 2 };
  delivering = record { my_high_delivered = 0; delivered = deliveries ring 0 12 };
  my_last_aru = 0xffff_ffff;
  last_released = 0xffff_fffe;
  released = [];
  my_deliver_memb_list = 1 ∷ 2 ∷ [];
  flow = record { my_trc = 0; my_pbl = 0; my_cbl = 0 };
  turn = record {
    my_token_seq = 40;
    my_last_seq = 1;
    my_seq_unchanged = 0;
    my_token_held = false;
    my_aru_count = 0;
  };
  recovering = record {
    my_set_retrans_flg = false;
    my_retrans_flg_count = 0;
    my_install_seq = 0;
    my_received_flg = true;
    my_rotation_counter = 0;
    my_trans_memb_list = 1 ∷ [];
  };
  multicasts = [];
  resent = [];
  tokens_sent = [];
}

pub ordered : Ordered ring base membership outgoing 10 14 node
unfolding view
ordered = (
  record {
    done = 12;
    aru = 12;
    top = 14;
    last_aru = 11;
    own = refl;
    state = refl;
    outgoing_at = refl;
    queue = record {
      small = omega arith;
      tail_in = omega arith;
      room = omega arith;
      head_at = refl;
      high = omega arith;
    };
    size = refl;
    window = window;
    gone_at = refl;
    done_at = refl;
    aru_at = refl;
    top_at = refl;
    last_aru_at = refl;
    prefix = refl;
    above = none_above;
    gone-done = omega arith;
    done-aru = omega arith;
    aru-top = omega arith;
    top-last = omega arith;
    top-gone = omega arith;
    gone-last = omega arith;
    last-gone = omega arith;
  },
  inr refl,
)

messages_deliver_to_app_in_order_example :
    Delivers ring base 11 sort_queue 11 3
      (record { my_high_delivered = 0xffff_ffff; delivered = [] })
      (messages_deliver_to_app sort_queue [] false 2
        (record { my_high_delivered = 0xffff_ffff; delivered = [] }))
messages_deliver_to_app_in_order_example =
    messages_deliver_to_app_in_order ring base 11 11 14 sort_queue []
      (record { my_high_delivered = 0xffff_ffff; delivered = [] }) window (omega arith)
      (omega arith) (omega arith) (omega arith) refl

messages_deliver_to_app_skips_example :
    messages_deliver_to_app sort_queue
      (1 ∷ [])
      true
      2
      (record { my_high_delivered = 0xffff_ffff; delivered = [] })
    ≡ some (record {
      my_high_delivered = 2;
      delivered = [] ++ from_members sort_queue (1 ∷ []) 11 11 3;
    })
messages_deliver_to_app_skips_example =
    messages_deliver_to_app_skips ring base 11 11 14 sort_queue (1 ∷ [])
      (record { my_high_delivered = 0xffff_ffff; delivered = [] }) window (omega arith)
      (omega arith) (omega arith) (omega arith) refl

-- The token asks for message 12 again.
abbrev rtr : Rtr Mcast
rtr = record {
  sort_queue = sort_queue;
  rtr_list = (record { ring_rep = 1; ring_seq = 8; seq = 0 }) ∷ [];
  sent = [];
}

orf_token_rtr_lem_example :
    (t : Rtr Mcast) × (orf_token_rtr 1 8 5 0 2 17 rtr ≡ some t)
    × Done 1 8 5 ring base 11 12 14 17 rtr t
orf_token_rtr_lem_example =
    orf_token_rtr_lem ring base 11 12 14 1 8 5 0 2 17 rtr window refl refl (omega arith)
      (omega arith) (omega arith) (omega arith) (omega arith, tt) (omega arith)

message_handler_mcast-Keeps_example :
    Keeps ring base membership outgoing 10 14
      (message_handler_mcast node (message_packet ring base membership 13) true)
message_handler_mcast-Keeps_example =
    message_handler_mcast-Keeps ring base membership outgoing 10 14 node ordered 13 true
      (omega arith) (omega arith) (omega arith)
