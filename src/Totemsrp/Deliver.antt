-- ===== src/Totemsrp/Deliver.antt =====
-- The delivery of the messages in the sort queue of exec/totemsrp.c.
use corosync.Prelude.{
  ℕ, zero, suc, ◌+◌, Bool, true, false, not, ◌&&◌, Option, none, some, List, [], ◌∷◌, ◌++◌, ltb,
  if◌then◌else◌, add32, sub32, ◌>>=◌,
}
use corosync.SortQueue.{Sq, in_range, item_get}
use corosync.Totemsrp.Sets.{memb_set_subset}
pub mod Window
pub mod InOrder
pub mod Transitional

-- What of struct mcast and of the bytes behind it is delivered; the number and the ring of a message are those of its
-- place and of its queue. The values are those that mcast_endian_convert gives where the sender has the other byte
-- order.
pub record Mcast : Type 0 where
  pub nodeid : ℕ
  pub system_from : ℕ
  pub other_order : Bool
  pub payload : List ℕ

-- A call of totemsrp_deliver_fn.
pub record Delivery : Type 0 where
  pub nodeid : ℕ
  pub msg : List ℕ
  pub endian_conversion_required : Bool

-- The variables of struct totemsrp_instance for it, with the calls of totemsrp_deliver_fn.
pub record Delivering : Type 0 where
  pub my_high_delivered : ℕ
  pub delivered : List Delivery

abbrev pub delivery : Mcast → Delivery
delivery m = record {
  nodeid = m.nodeid;
  msg = m.payload;
  endian_conversion_required = m.other_order;
}

-- The loop's body for a number that is passed: `skip` passes what is not from a node of `my_deliver_memb_list`.
unfoldable pub pass : Bool → List ℕ → ℕ → Option Mcast → Delivering → Delivering
pass skip my_deliver_memb_list seq none s = record s { my_high_delivered = seq }
pass skip my_deliver_memb_list seq (some m) s = record {
  my_high_delivered = seq;
  delivered =
      if skip && not (memb_set_subset (m.system_from ∷ []) my_deliver_memb_list)
      then s.delivered
      else s.delivered ++ delivery m ∷ [];
}

-- The loop of messages_deliver_to_app, with `n` turns left; `none` is a failed assertion of sq_item_get.
unfoldable pub deliver_messages :
    Sq Mcast → Bool → List ℕ → ℕ → ℕ → ℕ → Delivering → Option Delivering
deliver_messages sq skip memb stored zero i s = some s
deliver_messages sq skip memb stored (suc n) i s =
    let next = item_get sq (add32 stored i) >>= λ r. elim r [
      | none ↦ elim skip [
        | true ↦
            deliver_messages sq true memb stored n (suc i) (pass true memb (add32 stored i) none s)
        | false ↦ some s
      ]
      | some m ↦
          deliver_messages sq skip memb stored n (suc i)
            (pass skip memb (add32 stored i) (some m) s)
    ] in
    if in_range sq (add32 stored i) then next else some s

-- messages_deliver_to_app, with QUEUE_RTR_ITEMS_SIZE_MAX; `none` is its assertion, or that of sq_item_get.
unfoldable pub messages_deliver_to_app :
    Sq Mcast → List ℕ → Bool → ℕ → Delivering → Option Delivering
unfolding deliver_messages
messages_deliver_to_app regular_sort_queue my_deliver_memb_list skip end_point s =
    let range = sub32 end_point s.my_high_delivered in
    let rest =
      deliver_messages regular_sort_queue skip my_deliver_memb_list s.my_high_delivered range 1 s in
    if not (ltb range 16384) then none else rest
