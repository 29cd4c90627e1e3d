-- ===== src/Totemsrp/Node/Examples/Turns.antt =====
-- Packets and turns of the token at that node of exec/totemsrp.c.
use corosync.Prelude.{Option, ◌≡◌, refl, true, false, none, some, [], ◌∷◌, ◌⊎◌, arith}
use corosync.CsQueue.{CsQueue}
use corosync.SortQueue.{Sq}
use corosync.Totemsrp.Membership.{MembState}
use corosync.Totemsrp.Deliver.{Mcast, messages_deliver_to_app}
use corosync.Totemsrp.Retransmit.{Rtr, orf_token_rtr}
use corosync.Totemsrp.Node.{RingNode, OrfToken, message_handler_mcast}
use corosync.Totemsrp.Node.Token.{Config, Arrivals}
use corosync.Totemsrp.Node.Handler.{message_handler_orf_token}
use corosync.Totemsrp.Node.Packets.{message_packet}
use corosync.Totemsrp.Node.Taken.{Handles, Fits}
use corosync.Totemsrp.Node.Handled.{message_handler_orf_token_lem}
use corosync.Totemsrp.Node.Runs.{here, turn, seen_token}
use corosync.Totemsrp.Node.Turns.{AreRecent}
use corosync.SortQueue.{lte_compare}
use corosync.Totemsrp.Node.Seen.{IsSeen, KeepsSending, message_handler_orf_token_seen}
use corosync.Totemsrp.Node.Order.{Precedes, Runs-Precedes}
use corosync.Totemsrp.Node.Examples.{base, ring, outgoing, membership, node, ordered}

abbrev config : Config
config = record {
  max_messages = 17;
  window_size = 50;
  miss_count_const = 5;
  fail_to_recv_const = 2500;
  seqno_unchanged_const = 30;
  cancel_token_hold_on_retransmit = false;
}

abbrev token : OrfToken
token = record {
  seq = 2;
  token_seq = 41;
  aru = 0xffff_ffff;
  aru_addr = 2;
  ring_rep = 1;
  ring_seq = 8;
  backlog = 0;
  fcc = 0;
  retrans_flg = 0;
  rtr_list = (record { ring_rep = 1; ring_seq = 8; seq = 0 }) ∷ [];
}

-- Message 13 is flushed from the network.
abbrev arrivals : Arrivals
arrivals = record {
  flushed = (message_packet ring base membership 13, true) ∷ [];
  on_received = (record { payload = 7 ∷ []; buffer = true }) ∷ [];
  on_sent = [];
}

fitting : Fits config (λ s. none) base membership 10 14 11 token
fitting = record {
  token_at = refl;
  aru_at = refl;
  gone-aru = omega arith;
  aru-gone = omega arith;
  near = omega arith;
  words = (omega arith, tt);
  short = omega arith;
  wide = omega arith;
  settings = omega arith;
}

flushed_recent : AreRecent ring base membership 10 14 arrivals.flushed
flushed_recent = ((13, refl, omega arith, omega arith, omega arith), tt)

message_handler_orf_token_lem_example :
    Handles ring base membership [] 14
      (message_handler_orf_token config (λ s. none) arrivals token node)
message_handler_orf_token_lem_example =
    message_handler_orf_token_lem config (λ s. none) ring base membership outgoing 10 14 11 arrivals
      token node fitting flushed_recent ordered

-- The token of the turn before comes again, and message 13 with it.
abbrev old_token : OrfToken
old_token = record token { token_seq = 40; seq = 1; aru = 0xffff_fffd }

seen : IsSeen base 10 9 old_token node
unfolding lte_compare
seen = record { aru_at = refl; gone-aru = omega arith; aru-gone = omega arith; seen = refl }

again :
    KeepsSending ring base membership outgoing 10 14
      (message_handler_orf_token config (λ s. none) arrivals old_token node)
again =
    message_handler_orf_token_seen config (λ s. none) ring base membership outgoing 10 14 9 arrivals
      old_token node seen flushed_recent ordered

-- The node takes its turn, and sends message 15.
abbrev nothing : Arrivals
nothing = record { flushed = []; on_received = []; on_sent = [] }

abbrev or_node : Option RingNode → RingNode
or_node none = node
or_node (some s) = s

turned : RingNode
unfolding message_handler_orf_token
turned = or_node (message_handler_orf_token config (λ s. none) nothing token node)

turn_ends :
    (message_handler_orf_token config (λ s. none) nothing token node ≡ some turned)
    × (turned.multicasts ≡ (3, ring 15) ∷ [])
    × (turned.membership.memb_state ≡ MembState.operational)
unfolding turned corosync.SortQueue.item_inuse corosync.SortQueue.in_range
    corosync.SortQueue.lte_compare corosync.SortQueue.lt_compare
    corosync.Totemsrp.Release.messages_free corosync.Totemsrp.Deliver.pass
    corosync.SortQueue.item_get messages_deliver_to_app corosync.SortQueue.store
    corosync.Totemsrp.Received.update_aru corosync.Totemsrp.Flow.fcc_calculate orf_token_rtr
    corosync.Totemsrp.Flow.backlog_get corosync.Totemsrp.Node.Token.token_callbacks_execute
    corosync.Totemsrp.Retransmit.orf_token_remcast corosync.SortQueue.items_release
    corosync.Totemsrp.Multicast.orf_token_mcast corosync.CsQueue.is_empty
    corosync.Totemsrp.Flow.fcc_rtr_limit corosync.SortQueue.item_miss_count
    corosync.SortQueue.item_add corosync.Totemsrp.Retransmit.is_requested
    corosync.CsQueue.item_remove corosync.CsQueue.item_get corosync.Totemsrp.Node.deliver_received
turn_ends = (refl, refl, refl)

Runs-Precedes_example :
    Precedes turned.delivering.delivered again.0.delivering.delivered
    ⊎ Precedes again.0.delivering.delivered turned.delivering.delivered
Runs-Precedes_example =
    Runs-Precedes config config (λ s. none) (λ s. none) ring ring base membership membership
      outgoing outgoing 10 10 14 14 15 14 node turned node again.0 (λ d. refl) ordered ordered
      (turn here 10 11 1 nothing token (refl, omega arith, omega arith) fitting tt turn_ends.0
        turn_ends.2 turn_ends.1)
      (seen_token here 10 9 arrivals old_token (refl, omega arith, omega arith) seen flushed_recent
        again.2)
