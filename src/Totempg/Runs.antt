-- ===== src/Totempg/Runs.antt =====
-- A node that uses exec/totempg.c: it sends messages, and the token comes by.
use corosync.Prelude.{
  ℕ, ◌≤◌, Bool, Option, some, List, [], ◌∷◌, ◌++◌, length, if◌then◌else◌, ◌>>=◌, is_empty,
}
use corosync.Totempg.Packets.{Packet}
use corosync.Totempg.Send.{Staging, mcast_msg, callback_token_received_fn}
use corosync.Totempg.Loops.{joined}

-- The message that iovecs give: none when all are empty.
abbrev pub message_of : List (List ℕ) → List (List ℕ)
message_of iovecs = if is_empty (joined iovecs) then [] else joined iovecs ∷ []

-- A step of a node: a message is sent, the token comes, or the ring below has other room.
pub data Action : Type 0 where
  message : List (List ℕ) → Action
  token : Action
  room : ℕ → Action

-- The variables of totempg before the first message.
abbrev pub initial : ℕ → Staging
initial n = record {
  fragmentation_data = [];
  packed_msg_lens = [];
  fragment_continuation = 0;
  next_fragment = 1;
  room = n;
  sent = [];
}

abbrev pub after_message :
    List (List ℕ) → Staging × List (List ℕ) → Option (Staging × List (List ℕ))
after_message ms r = some (r.0, ms ++ r.1)

-- The steps of a node, with the messages of which mcast_msg said that they are sent.
unfoldable pub run : ℕ → (Packet → Bool) → Staging → List Action → Option (Staging × List (List ℕ))
unfolding mcast_msg callback_token_received_fn
run net_mtu accepts s [] = some (s, [])
run net_mtu accepts s (Action.token ∷ actions) =
    run net_mtu accepts (callback_token_received_fn net_mtu accepts s) actions
run net_mtu accepts s (Action.room n ∷ actions) =
    run net_mtu accepts (record s { room = n }) actions
run net_mtu accepts s (Action.message m ∷ actions) = mcast_msg net_mtu accepts s m >>= λ r.
    run net_mtu accepts r.0 actions >>= after_message (if r.1 then message_of m else [])

-- No message is longer than `most`.
abbrev pub NoLonger : ℕ → List Action → Type 0
NoLonger most [] = Unit
NoLonger most (Action.message m ∷ actions) = (length (joined m) ≤ most) × NoLonger most actions
NoLonger most (Action.token ∷ actions) = NoLonger most actions
NoLonger most (Action.room n ∷ actions) = NoLonger most actions
