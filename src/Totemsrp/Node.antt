-- ===== src/Totemsrp/Node.antt =====
-- A node of exec/totemsrp.c with its queues, and what it does with a message and with the token.
use corosync.Prelude.{
  ℕ, ◌+◌, Bool, true, false, not, ◌&&◌, Option, none, some, List, [], ◌∷◌, ◌==◌, if◌then◌else◌,
  ◌>>=◌,
}
use corosync.CsQueue.{CsQueue}
use corosync.SortQueue.{Sq, lt_compare, in_range, item_inuse, item_add}
use corosync.Totemsrp.Sets.{memb_set_subset, memb_set_merge}
use corosync.Totemsrp.Membership.{
  Instance, MembState, operational, gather, commit, recovery, memb_state_gather_enter,
}
use corosync.Totemsrp.Flow.{Flow}
use corosync.Totemsrp.Received.{Received, update_aru}
use corosync.Totemsrp.Deliver.{Mcast, Delivering, messages_deliver_to_app}
use corosync.Totemsrp.Retransmit.{RtrItem}
pub mod Window
pub mod Packets
pub mod Token
pub mod Handler
pub mod Freed
pub mod Sending
pub mod Turns
pub mod Histories
pub mod Passes
pub mod Taken
pub mod Handled
pub mod Seen
pub mod Runs
pub mod Order
mod Examples

-- struct orf_token
pub record OrfToken : Type 0 where
  pub seq : ℕ
  pub token_seq : ℕ
  pub aru : ℕ
  pub aru_addr : ℕ
  pub ring_rep : ℕ
  pub ring_seq : ℕ
  pub backlog : ℕ
  pub fcc : ℕ
  pub retrans_flg : ℕ
  pub rtr_list : List RtrItem

-- The variables that message_handler_orf_token counts by, in its general part and in the recovery.
pub record Turn : Type 0 where
  pub my_token_seq : ℕ
  pub my_last_seq : ℕ
  pub my_seq_unchanged : ℕ
  pub my_token_held : Bool
  pub my_aru_count : ℕ

pub record Recovering : Type 0 where
  pub my_set_retrans_flg : Bool
  pub my_retrans_flg_count : ℕ
  pub my_install_seq : ℕ
  pub my_received_flg : Bool
  pub my_rotation_counter : ℕ
  pub my_trans_memb_list : List ℕ

-- struct totemsrp_instance, with the messages and the tokens that are sent.
pub record RingNode : Type 0 where
  pub membership : Instance
  pub regular_sort_queue : Sq Mcast
  pub recovery_sort_queue : Sq Mcast
  pub new_message_queue : CsQueue Mcast
  pub new_message_queue_trans : CsQueue Mcast
  pub retrans_message_queue : CsQueue Mcast
  pub waiting_trans_ack : Bool
  pub received : Received
  pub delivering : Delivering
  pub my_last_aru : ℕ
  pub last_released : ℕ
  pub released : List Mcast
  pub my_deliver_memb_list : List ℕ
  pub flow : Flow
  pub turn : Turn
  pub recovering : Recovering
  pub multicasts : List (ℕ × Mcast)
  pub resent : List Mcast
  pub tokens_sent : List OrfToken

-- The queue that orf_token_mcast sends from, outside of the recovery also that of totemsrp_mcast.
abbrev pub new_queue : RingNode → CsQueue Mcast
new_queue s = if s.waiting_trans_ack then s.new_message_queue_trans else s.new_message_queue

-- A packet with a message: what of struct mcast decides where the message goes, and the message.
pub record McastPacket : Type 0 where
  pub seq : ℕ
  pub ring_rep : ℕ
  pub ring_seq : ℕ
  pub encapsulated : Bool
  pub mcast : Mcast

abbrev pub is_recovery : MembState → Bool
is_recovery recovery = true
is_recovery _ = false

abbrev pub is_operational : MembState → Bool
is_operational operational = true
is_operational _ = false

-- The sort queue of the state that the node is in, as update_aru, orf_token_rtr and orf_token_mcast choose it.
abbrev pub sort_queue_in : RingNode → Sq Mcast
sort_queue_in s =
    if is_recovery s.membership.memb_state then s.recovery_sort_queue else s.regular_sort_queue

-- What a message of another ring makes of the membership.
unfoldable pub foreign_message : Instance → ℕ → Instance
foreign_message s system_from =
    let merged = record s { my_proc_list = memb_set_merge (system_from ∷ []) s.my_proc_list } in
    elim s.memb_state [
      | operational ↦ memb_state_gather_enter merged
      | gather ↦
          if memb_set_subset (system_from ∷ []) s.my_proc_list
          then s
          else memb_state_gather_enter merged
      | commit ↦ s
      | recovery ↦ s
    ]

-- The sort queue of a message, and whether the message is new and in its window.
abbrev pub sort_queue_of : RingNode → McastPacket → Sq Mcast
sort_queue_of s p = if p.encapsulated then s.recovery_sort_queue else s.regular_sort_queue

abbrev pub is_wanted : RingNode → McastPacket → Bool
is_wanted s p = in_range (sort_queue_of s p) p.seq && not (item_inuse (sort_queue_of s p) p.seq)

abbrev pub raise_high : Received → ℕ → Received
raise_high r seq =
    if lt_compare r.my_high_seq_received seq then record r { my_high_seq_received = seq } else r

-- A message that is wanted goes to its sort queue; `none` is the assertion of sq_item_add.
unfoldable pub keep_message : RingNode → McastPacket → Option RingNode
keep_message s p = item_add (sort_queue_of s p) p.mcast p.seq >>= λ sq. some (record s {
  received = raise_high s.received p.seq;
  regular_sort_queue = if p.encapsulated then s.regular_sort_queue else sq;
  recovery_sort_queue = if p.encapsulated then sq else s.recovery_sort_queue;
})

-- messages_deliver_to_app (instance, 0, instance->my_high_seq_received) in the OPERATIONAL state.
unfoldable pub deliver_received : RingNode → Option RingNode
deliver_received s =
    let delivered =
      messages_deliver_to_app s.regular_sort_queue s.my_deliver_memb_list false
        s.received.my_high_seq_received s.delivering
      >>= λ d. some (record s { delivering = d }) in
    if is_operational s.membership.memb_state then delivered else some s

-- The end of message_handler_mcast.
unfoldable pub note_received : RingNode → Option RingNode
unfolding deliver_received
note_received s =
    update_aru s.received (sort_queue_in s) >>= λ r. deliver_received (record s { received = r })

-- message_handler_mcast, for a packet whose length is that of a message and no more than FRAME_SIZE_MAX, when
-- `buffer` says whether totemsrp_buffer_alloc answers. `none` is an assertion.
unfoldable pub message_handler_mcast : RingNode → McastPacket → Bool → Option RingNode
unfolding foreign_message keep_message note_received
message_handler_mcast s p buffer =
    let own = p.ring_rep == s.membership.my_ring_rep && p.ring_seq == s.membership.my_ring_seq in
    if not own
    then some (record s { membership = foreign_message s.membership p.mcast.system_from })
    else if not (is_wanted s p)
    then note_received s
    else if not buffer
    then some s
    else keep_message s p >>= λ t. note_received t
