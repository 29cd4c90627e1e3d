-- ===== src/Totemsrp/Node/Token.antt =====
-- The parts of message_handler_orf_token of exec/totemsrp.c.
use corosync.Prelude.{
  ℕ, ◌+◌, ◌-◌, Bool, false, not, ◌&&◌, ◌||◌, Option, some, List, [], ◌∷◌, ◌++◌, length, ltb, leb,
  ◌==◌, if◌then◌else◌, ◌>>=◌,
}
use corosync.CsQueue
use corosync.CsQueue.{CsQueue}
use corosync.SortQueue.{Sq, lt_compare}
use corosync.Totemsrp.Flow.{FlowToken, backlog_get, fcc_calculate, fcc_rtr_limit, fcc_token_update}
use corosync.Totemsrp.Multicast.{orf_token_mcast}
use corosync.Totemsrp.Release.{messages_free}
use corosync.Totemsrp.Deliver.{Mcast}
use corosync.Totemsrp.Retransmit.{orf_token_rtr}
use corosync.Totemsrp.Node.{
  OrfToken, RingNode, McastPacket, is_recovery, sort_queue_in, message_handler_mcast, new_queue,
}

-- The fields of struct totem_config that the token is handled by.
pub record Config : Type 0 where
  pub max_messages : ℕ
  pub window_size : ℕ
  pub miss_count_const : ℕ
  pub fail_to_recv_const : ℕ
  pub seqno_unchanged_const : ℕ
  pub cancel_token_hold_on_retransmit : Bool

-- What a caller of totemsrp_mcast has, and whether totemsrp_buffer_alloc answers.
pub record Submission : Type 0 where
  pub payload : List ℕ
  pub buffer : Bool

-- What comes in while the token is handled: the messages that totemnet_recv_flush finds, each with whether a buffer
-- is there, and what the callbacks send when the token is received and when it is sent.
pub record Arrivals : Type 0 where
  pub flushed : List (McastPacket × Bool)
  pub on_received : List Submission
  pub on_sent : List Submission

-- A write of the queue that new_queue reads.
abbrev pub put_new_queue : RingNode → CsQueue Mcast → RingNode
put_new_queue s q = record s {
  new_message_queue = if s.waiting_trans_ack then s.new_message_queue else q;
  new_message_queue_trans = if s.waiting_trans_ack then q else s.new_message_queue_trans;
}

-- totemsrp_mcast; `none` is the assertion of cs_queue_item_add.
unfoldable pub totemsrp_mcast : RingNode → Submission → Option RingNode
totemsrp_mcast s m =
    let message : Mcast = record {
      nodeid = s.membership.my_id;
      system_from = s.membership.my_id;
      other_order = false;
      payload = m.payload;
    } in
    if CsQueue.is_full (new_queue s) || not m.buffer
    then some s
    else CsQueue.item_add (new_queue s) message >>= λ q. some (put_new_queue s q)

-- token_callbacks_execute, for what the callbacks send.
unfoldable pub token_callbacks_execute : RingNode → List Submission → Option RingNode
token_callbacks_execute s [] = some s
token_callbacks_execute s (m ∷ ms) = totemsrp_mcast s m >>= λ t. token_callbacks_execute t ms

-- totemnet_recv_flush
unfoldable pub recv_flush : RingNode → List (McastPacket × Bool) → Option RingNode
recv_flush s [] = some s
recv_flush s ((p, buffer) ∷ ps) = message_handler_mcast s p buffer >>= λ t. recv_flush t ps

-- The merge detection's count of turns without a new message.
abbrev pub note_sequence : RingNode → OrfToken → RingNode
note_sequence s token = record s {
  turn = record s.turn {
    my_seq_unchanged = if token.seq == s.turn.my_last_seq then s.turn.my_seq_unchanged + 1 else 0;
    my_last_seq = token.seq;
  };
}

abbrev pub is_representative : RingNode → Bool
is_representative s = s.membership.my_ring_rep == s.membership.my_id

abbrev pub set_held : RingNode → Bool → RingNode
set_held s held = record s { turn = record s.turn { my_token_held = held } }

-- Whether the token is held.
abbrev pub is_quiet : Config → RingNode → Bool
is_quiet c s =
    if is_representative s
    then ltb c.seqno_unchanged_const s.turn.my_seq_unchanged
    else leb c.seqno_unchanged_const s.turn.my_seq_unchanged

-- messages_free on the regular sort queue.
unfoldable pub free_messages : RingNode → ℕ → Option RingNode
free_messages s token_aru =
    messages_free
      (record {
        sort_queue = s.regular_sort_queue;
        my_last_aru = s.my_last_aru;
        my_high_delivered = s.delivering.my_high_delivered;
        last_released = s.last_released;
        released = s.released;
      })
      token_aru
    >>= λ h. some (record s {
      regular_sort_queue = h.sort_queue;
      last_released = h.last_released;
      released = h.released;
    })

-- A write of the sort queue that sort_queue_in reads.
abbrev pub put_sort_queue : RingNode → Sq Mcast → RingNode
put_sort_queue s sq = record s {
  regular_sort_queue = if is_recovery s.membership.memb_state then s.regular_sort_queue else sq;
  recovery_sort_queue = if is_recovery s.membership.memb_state then sq else s.recovery_sort_queue;
}

abbrev pub flow_token : OrfToken → FlowToken
flow_token token = record { seq = token.seq; fcc = token.fcc; backlog = token.backlog }

-- What is passed on in a turn: the node, the token, what may still be sent, and what is sent.
pub record Passing : Type 0 where
  pub node : RingNode
  pub token : OrfToken
  pub allowed : ℕ
  pub transmitted : ℕ

-- fcc_calculate, with the answer of backlog_get.
unfoldable pub calculate : Config → RingNode → OrfToken → Passing
calculate c s token =
    let r = fcc_calculate c.max_messages c.window_size s.flow (flow_token token) (
      backlog_get s.membership.memb_state s.waiting_trans_ack s.new_message_queue.used
        s.new_message_queue_trans.used s.retrans_message_queue.used) in
    record { node = record s { flow = r.0 }; token = token; allowed = r.1; transmitted = 0 }

-- orf_token_rtr
unfoldable pub resend : Config → Passing → Option Passing
resend c p =
    orf_token_rtr p.node.membership.my_ring_rep p.node.membership.my_ring_seq c.miss_count_const
      p.node.received.my_aru p.token.seq p.allowed
      (record { sort_queue = sort_queue_in p.node; rtr_list = p.token.rtr_list; sent = [] })
    >>= λ r. some (record {
      node = record (put_sort_queue p.node r.sort_queue) { resent = p.node.resent ++ r.sent };
      token = record p.token { rtr_list = r.rtr_list };
      allowed = p.allowed - length r.sent;
      transmitted = length r.sent;
    })

-- The hold of the token ends when something is sent again or asked for.
abbrev pub keeps_held : Config → Passing → Bool
keeps_held c p =
    p.node.turn.my_token_held
    && not (
        c.cancel_token_hold_on_retransmit
        && (ltb 0 (length p.token.rtr_list) || ltb 0 p.transmitted))

-- fcc_rtr_limit and orf_token_mcast, with the queues of the state.
unfoldable pub multicast : Config → Passing → Option Passing
multicast c p =
    let s = p.node in
    fcc_rtr_limit c.window_size s.last_released (flow_token p.token) p.allowed >>= λ allowed.
    orf_token_mcast
      (record {
        queue =
            if is_recovery s.membership.memb_state then s.retrans_message_queue else new_queue s;
        sort_queue = sort_queue_in s;
        sent = [];
        token_seq = p.token.seq;
        received = s.received;
      })
      allowed
    >>= λ o.
        let t =
          if is_recovery s.membership.memb_state
          then (record s { retrans_message_queue = o.queue })
          else put_new_queue s o.queue in
        some (record {
          node = record (put_sort_queue t o.sort_queue) {
            received = o.received;
            multicasts = s.multicasts ++ o.sent;
          };
          token = record p.token { seq = o.token_seq };
          allowed = allowed;
          transmitted = p.transmitted + length o.sent;
        })

-- fcc_token_update
unfoldable pub update_flow : Passing → Passing
update_flow p =
    let r = fcc_token_update p.node.flow (flow_token p.token) p.transmitted in
    record p {
      node = record p.node { flow = r.0 };
      token = record p.token { fcc = r.1.fcc; backlog = r.1.backlog };
    }

-- The aru of the token, and the count of turns without progress.
unfoldable pub update_token_aru : ℕ → Passing → Passing
update_token_aru last_aru p =
    let s = p.node in
    let token =
      if lt_compare s.received.my_aru p.token.aru
        || s.membership.my_id == p.token.aru_addr
        || p.token.aru_addr == 0
      then (record p.token {
        aru = s.received.my_aru;
        aru_addr = if s.received.my_aru == p.token.seq then 0 else s.membership.my_id;
      })
      else p.token in
    let count =
      if token.aru == last_aru && not (token.aru_addr == 0) then s.turn.my_aru_count + 1 else 0 in
    record p { node = record s { turn = record s.turn { my_aru_count = count } }; token = token }
