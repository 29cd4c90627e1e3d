-- ===== src/Totemsrp/Multicast.antt =====
-- The new messages that a node sends when it holds the token, in exec/totemsrp.c.
use corosync.Prelude.{
  ℕ, zero, suc, ◌+◌, Option, none, some, List, [], ◌∷◌, ◌++◌, if◌then◌else◌, add32, ◌>>=◌,
}
use corosync.CsQueue
use corosync.CsQueue.{CsQueue}
use corosync.SortQueue
use corosync.SortQueue.{Sq}
use corosync.Totemsrp.Received.{Received, update_aru}
pub mod Order
mod Examples

-- The queue of new messages, the sort queue, what is sent with its sequence number, the number of the token, and how
-- far all is received. In the recovery these are the other two queues.
pub record Ordering (A : Type 0) : Type 0 where
  pub queue : CsQueue A
  pub sort_queue : Sq A
  pub sent : List (ℕ × A)
  pub token_seq : ℕ
  pub received : Received

module _ {A : Type 0} where
  -- The state when a message has gone out.
  abbrev pub after_send : Ordering A → CsQueue A → Sq A → Ordering A
  after_send s queue sort_queue =
      let seq = add32 s.token_seq 1 in
      record {
        queue = queue;
        sort_queue = sort_queue;
        sent = s.sent ++ (seq, CsQueue.item_get s.queue) ∷ [];
        token_seq = seq;
        received = record { my_aru = s.received.my_aru; my_high_seq_received = seq };
      }

  -- The loop of orf_token_mcast, for the number of messages that are allowed.
  unfoldable pub send_messages : Ordering A → ℕ → Option (Ordering A)
  send_messages s zero = some s
  send_messages s (suc n) =
      let rest =
        SortQueue.item_add s.sort_queue (CsQueue.item_get s.queue) (add32 s.token_seq 1) >>= λ sq.
        CsQueue.item_remove s.queue >>= λ q. send_messages (after_send s q sq) n in
      if CsQueue.is_empty s.queue then some s else rest

  -- orf_token_mcast
  unfoldable pub orf_token_mcast : Ordering A → ℕ → Option (Ordering A)
  unfolding send_messages
  orf_token_mcast s fcc_mcasts_allowed = send_messages s fcc_mcasts_allowed >>= λ t.
      update_aru t.received t.sort_queue >>= λ r. some (record t { received = r })
