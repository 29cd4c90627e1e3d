-- ===== src/Totemsrp/Received.antt =====
-- Up to where a node has received all messages, in exec/totemsrp.c.
use corosync.Prelude.{ℕ, zero, suc, ◌+◌, ◌-◌, Option, none, some, add32, sub32, ◌>>=◌}
use corosync.SortQueue.{Sq, item_get}
pub mod Holes
mod Examples

-- The variables of struct totemsrp_instance for it.
pub record Received : Type 0 where
  pub my_aru : ℕ
  pub my_high_seq_received : ℕ

module _ {A : Type 0} where
  -- The loop of update_aru, with `n` turns left: the first `i` whose message is missing, or the one behind the
  -- last. `none` is a failed assertion of sq_item_get.
  unfoldable pub first_hole : Sq A → ℕ → ℕ → ℕ → Option ℕ
  first_hole sq my_aru_saved zero i = some i
  first_hole sq my_aru_saved (suc n) i = item_get sq (add32 my_aru_saved i) >>= λ r. elim r [
    | none ↦ some i
    | some x ↦ first_hole sq my_aru_saved n (suc i)
  ]

  -- update_aru, with the sort queue of the state that the node is in
  unfoldable pub update_aru : Received → Sq A → Option Received
  unfolding first_hole
  update_aru s sq = first_hole sq s.my_aru (sub32 s.my_high_seq_received s.my_aru) 1 >>= λ i.
      some (record s { my_aru = add32 s.my_aru (i - 1) })
