-- ===== src/Totemsrp/Node/Handler.antt =====
-- message_handler_orf_token of exec/totemsrp.c, for a token that check_orf_token_sanity lets pass.
use corosync.Prelude.{
  ℕ, ◌+◌, Bool, true, false, not, ◌&&◌, ◌||◌, Option, some, List, [], ◌∷◌, ◌++◌, ltb, leb, ◌==◌,
  if◌then◌else◌, add32, ◌>>=◌,
}
use corosync.CsQueue
use corosync.SortQueue.{lte_compare}
use corosync.Totemsrp.Membership.{MembState, operational, gather, commit, recovery}
use corosync.Totemsrp.Membership.Events.{fail_to_receive}
use corosync.Totemsrp.Node.{OrfToken, RingNode, is_recovery, deliver_received}
use corosync.Totemsrp.Node.Token.{
  Config, Submission, Arrivals, Passing, token_callbacks_execute, recv_flush, note_sequence,
  is_representative, set_held, is_quiet, free_messages, calculate, resend, keeps_held, multicast,
  update_flow, update_token_aru,
}

-- In the recovery the token says whether a node has messages of its old ring left.
unfoldable pub flag_retransmission : Passing → Passing
flag_retransmission p =
    let r = p.node.recovering in
    if not (CsQueue.is_empty p.node.retrans_message_queue)
    then (if p.token.retrans_flg == 0
        then (record p {
          node = record p.node { recovering = record r { my_set_retrans_flg = true } };
          token = record p.token { retrans_flg = 1 };
        })
        else p)
    else if p.token.retrans_flg == 1 && r.my_set_retrans_flg
    then (record p {
      node = record p.node { recovering = record r { my_set_retrans_flg = false } };
      token = record p.token { retrans_flg = 0 };
    })
    else p

-- The turns without old messages are counted, and those after all of the recovery is received everywhere.
unfoldable pub count_recovery : Passing → Passing
count_recovery p =
    let s = p.node in
    let r = s.recovering in
    let count = if p.token.retrans_flg == 0 then r.my_retrans_flg_count + 1 else 0 in
    let install = if count == 2 then p.token.seq else r.my_install_seq in
    let complete = leb 2 count && not r.my_received_flg && lte_compare install s.received.my_aru in
    let rotation =
      if leb 3 count && lte_compare install p.token.aru then r.my_rotation_counter + 1 else 0 in
    record p {
      node = record s {
        my_deliver_memb_list = if complete then r.my_trans_memb_list else s.my_deliver_memb_list;
        recovering = record r {
          my_retrans_flg_count = count;
          my_install_seq = install;
          my_received_flg = r.my_received_flg || complete;
          my_rotation_counter = rotation;
        };
      };
    }

-- The part for the RECOVERY state. memb_state_operational_enter is an argument.
unfoldable pub recover : (RingNode → Option RingNode) → Passing → Option Passing
unfolding flag_retransmission count_recovery
recover operational_enter p =
    let q = count_recovery (flag_retransmission p) in
    let entered = operational_enter q.node >>= λ s. some (record q {
      node = record s {
        recovering = record s.recovering { my_rotation_counter = 0; my_retrans_flg_count = 0 };
      };
    }) in
    if q.node.recovering.my_rotation_counter == 2 then entered else some q

-- token_send, without the copy for its retransmission.
abbrev pub token_send : RingNode → OrfToken → Bool → RingNode
token_send s token forward_token = record s {
  tokens_sent = if forward_token then s.tokens_sent ++ token ∷ [] else s.tokens_sent;
}

-- The end of a turn: the token goes on, and then the messages are delivered.
unfoldable pub pass_on :
    (RingNode → Option RingNode) → Bool → List Submission → Passing → Option RingNode
unfolding recover
pass_on operational_enter forward_token on_sent p =
    let token = record p.token { token_seq = add32 p.token.token_seq 1 } in
    let q = record p {
      node = record p.node { turn = record p.node.turn { my_token_seq = p.token.token_seq } };
      token = token;
    } in
    let recovered = recover operational_enter q in
    (if is_recovery q.node.membership.memb_state then recovered else some q) >>= λ r.
    deliver_received (token_send r.node r.token forward_token) >>= λ t.
    token_callbacks_execute t on_sent

-- The node passes the token on, unless it fails to receive.
unfoldable pub finish_turn :
    Config → (RingNode → Option RingNode) → Bool → List Submission → Passing → Option RingNode
unfolding pass_on
finish_turn c operational_enter forward_token on_sent p =
    let on = pass_on operational_enter forward_token on_sent p in
    if ltb c.fail_to_recv_const p.node.turn.my_aru_count
      && p.token.aru_addr == p.node.membership.my_id
    then some (record p.node { membership = fail_to_receive p.node.membership })
    else on

-- After the retransmission: the hold, the new messages, and the end of the turn.
unfoldable pub send_new :
    Config → (RingNode → Option RingNode) → List Submission → ℕ → Passing → Option RingNode
unfolding multicast update_flow update_token_aru finish_turn
send_new c operational_enter on_sent last_aru p =
    let held = keeps_held c p in
    multicast c (record p { node = set_held p.node held }) >>= λ q.
    finish_turn c operational_enter (not (is_representative p.node && held)) on_sent
      (update_token_aru last_aru (update_flow q))

-- What a node does with a token of its ring that it has not seen.
unfoldable pub take_turn :
    Config → (RingNode → Option RingNode) → List Submission → OrfToken → RingNode → Option RingNode
unfolding calculate resend send_new
take_turn c operational_enter on_sent token s =
    resend c (calculate c (record s { my_last_aru = token.aru }) token) >>= λ p.
    send_new c operational_enter on_sent s.my_last_aru p

-- Tokens of another ring, and those that have been here, are discarded.
unfoldable pub accept_token :
    Config → (RingNode → Option RingNode) → Arrivals → OrfToken → RingNode → Option RingNode
unfolding take_turn
accept_token c operational_enter arrivals token s =
    let own =
      token.ring_rep == s.membership.my_ring_rep && token.ring_seq == s.membership.my_ring_seq in
    let turn = token_callbacks_execute s arrivals.on_received >>= λ t.
    take_turn c operational_enter arrivals.on_sent token t in
    if not own || lte_compare token.token_seq s.turn.my_token_seq then some s else turn

-- The switch of message_handler_orf_token: a node in the COMMIT state discards the token, and only one in the
-- OPERATIONAL state releases messages.
unfoldable pub by_state :
    MembState
    → Config
    → (RingNode → Option RingNode)
    → Arrivals
    → OrfToken
    → RingNode
    → Option RingNode
unfolding accept_token free_messages
by_state commit c operational_enter arrivals token s = some s
by_state operational c operational_enter arrivals token s =
    free_messages s token.aru >>= λ t. accept_token c operational_enter arrivals token t
by_state gather c operational_enter arrivals token s =
    accept_token c operational_enter arrivals token s
by_state recovery c operational_enter arrivals token s =
    accept_token c operational_enter arrivals token s

-- message_handler_orf_token; `none` is a failed assertion. The timers, the heartbeat, the statistics and the flag
-- `flushing` are left out.
unfoldable pub message_handler_orf_token :
    Config → (RingNode → Option RingNode) → Arrivals → OrfToken → RingNode → Option RingNode
unfolding by_state recv_flush
message_handler_orf_token c operational_enter arrivals token s =
    let handled = recv_flush (note_sequence s token) arrivals.flushed >>= λ t.
    let u = set_held t (is_quiet c t) in
    by_state u.membership.memb_state c operational_enter arrivals token u in
    if s.membership.orf_token_discard then some s else handled
