-- ===== src/Totempg/Examples.antt =====
-- The theorems about exec/totempg.c at a small network, and tests of its code.
use corosync.Prelude.{
  ℕ, ◌≡◌, refl, Bool, true, false, Option, none, some, List, [], ◌∷◌, ◌++◌, arith,
}
use corosync.Totempg.Packets.{Packet}
use corosync.Totempg.Send.{
  Staging, byte_count_send_ok, remove_empty, total_size, copy_all, packet_of, numbered, flushed,
  count_message, mcast_loop, mcast_msg, callback_token_received_fn,
}
use corosync.Totempg.Assembly.{
  Assembly, read, later_messages, delivered_messages, deliver_complete, fresh, keep_fragment,
  totempg_deliver_fn, deliver_all,
}
use corosync.Totempg.Sent.{Limits}
use corosync.Totempg.Answers.{HasSpace, mcast_msg_returns}
use corosync.Totempg.Discard.{deliver_all_gap}
use corosync.Totempg.Runs.{Action, initial, run}
use corosync.Totempg.RoundTrip.{deliver_all-run, deliver_all-run_prefix}

-- Packets of 22 bytes behind their header.
abbrev mtu : ℕ
mtu = 30

abbrev takes_all : Packet → Bool
takes_all p = true

abbrev no_bytes : ℕ → ℕ
no_bytes j = 0

-- A message that needs two packets.
abbrev long_message : List ℕ
long_message =
    1 ∷ 2 ∷ 3 ∷ 4 ∷ 5 ∷ 6 ∷ 7 ∷ 8 ∷ 9 ∷ 10 ∷ 11 ∷ 12 ∷ 13 ∷ 14 ∷ 15 ∷ 16 ∷ 17 ∷ 18 ∷ 19 ∷ 20 ∷ 21
    ∷ 22 ∷ 23 ∷ 24 ∷ 25 ∷ []

abbrev actions : List Action
actions =
    Action.message (long_message ∷ [])
    ∷ Action.message ((50 ∷ []) ∷ [] ∷ (51 ∷ 52 ∷ []) ∷ [])
    ∷ Action.message []
    ∷ Action.token
    ∷ Action.room 3
    ∷ Action.message ((60 ∷ 61 ∷ []) ∷ [])
    ∷ []

abbrev state_of : Option (Staging × List (List ℕ)) → Staging
state_of none = initial 0
state_of (some r) = r.0

abbrev end : Staging
unfolding run remove_empty total_size byte_count_send_ok copy_all packet_of numbered flushed
    count_message mcast_loop mcast_msg callback_token_received_fn
end = state_of (run mtu takes_all (initial 9) actions)

abbrev messages_sent : List (List ℕ)
messages_sent = long_message ∷ (50 ∷ 51 ∷ 52 ∷ []) ∷ (60 ∷ 61 ∷ []) ∷ []

ran : run mtu takes_all (initial 9) actions ≡ some (end, messages_sent)
unfolding run remove_empty total_size byte_count_send_ok copy_all packet_of numbered flushed
    count_message mcast_loop mcast_msg callback_token_received_fn
ran = refl

limits : Limits mtu 80 25
limits = record { wide = omega arith; narrow = omega arith; room = omega arith }

deliver_all-run_example :
    (a : Assembly) × (deliver_all 80
        (fresh no_bytes)
        (callback_token_received_fn mtu takes_all end).sent
      ≡ some (a, messages_sent))
unfolding end
deliver_all-run_example =
    deliver_all-run mtu 80 25 9 takes_all no_bytes actions end messages_sent limits (λ p. refl)
      (omega arith) ran (omega arith)

deliver_all-run_prefix_example :
    (a : Assembly) × (out rest : List (List ℕ)) × (deliver_all 80 (fresh no_bytes) end.sent
      ≡ some (a, out))
    × (out ++ rest ≡ messages_sent)
deliver_all-run_prefix_example =
    deliver_all-run_prefix mtu 80 25 9 takes_all no_bytes actions end messages_sent limits
      (λ p. refl) (omega arith) ran

start_space : HasSpace mtu (initial 40)
start_space = record { wide = omega arith; space = omega arith; two = omega arith }

mcast_msg_returns_example :
    (t : Staging) × (b : Bool) × (mcast_msg mtu (λ p. false) (initial 40) (long_message ∷ [])
      ≡ some (t, b))
mcast_msg_returns_example =
    mcast_msg_returns mtu (λ p. false) (initial 40) (long_message ∷ []) start_space (omega arith)
      (omega arith)

abbrev packet : ℕ → ℕ → List ℕ → List ℕ → Packet
packet fragmented continuation msg_lens payload = record {
  fragmented = fragmented;
  continuation = continuation;
  msg_lens = msg_lens;
  payload = payload;
}

-- A receiver that has the first fragment of a message.
abbrev one_fragment : Assembly
one_fragment = record { bytes = no_bytes; index = 1; last_frag_num = 1; is_throwing = false }

abbrev packet_after : Packet
packet_after = packet 0 0 (1 ∷ []) (9 ∷ [])

deliver_all_gap_example :
    (bytes : ℕ → ℕ) × (deliver_all 80 one_fragment (
        packet 3 2 (1 ∷ []) (5 ∷ [])
        ∷ (packet 4 3 (1 ∷ []) (6 ∷ []) ∷ packet 0 4 (1 ∷ 1 ∷ []) (7 ∷ 8 ∷ []) ∷ packet_after ∷ []))
      ≡ deliver_all 80 (fresh bytes) (packet_after ∷ []))
deliver_all_gap_example =
    deliver_all_gap 80 one_fragment (packet 3 2 (1 ∷ []) (5 ∷ []))
      (packet 4 3 (1 ∷ []) (6 ∷ []) ∷ []) (packet 0 4 (1 ∷ 1 ∷ []) (7 ∷ 8 ∷ [])) (packet_after ∷ [])
      refl (omega arith) (omega arith) refl (omega arith, refl, tt) refl refl (omega arith)

abbrev delivered_of : Option (Assembly × List (List ℕ)) → List (List ℕ)
delivered_of none = []
delivered_of (some r) = r.1

-- The second of five packets of a node is lost; the last message, sent as 13 and 14, arrives as 12 and 14.
wrong_message :
    delivered_of (
      deliver_all 80 (fresh no_bytes) (
        packet 1 0 (1 ∷ []) (1 ∷ [])
        ∷ packet 1 2 (1 ∷ 1 ∷ 1 ∷ []) (3 ∷ 4 ∷ 10 ∷ [])
        ∷ packet 1 1 (1 ∷ 1 ∷ 1 ∷ []) (11 ∷ 12 ∷ 13 ∷ [])
        ∷ packet 0 1 (1 ∷ []) (14 ∷ [])
        ∷ []))
    ≡ (12 ∷ 14 ∷ []) ∷ []
unfolding read later_messages delivered_messages deliver_complete keep_fragment totempg_deliver_fn
    deliver_all
wrong_message = refl
