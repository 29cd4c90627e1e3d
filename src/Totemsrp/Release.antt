-- ===== src/Totemsrp/Release.antt =====
-- The messages that every node has, and that a node of exec/totemsrp.c gives up.
use corosync.Prelude.{
  ℕ, zero, suc, ◌+◌, Bool, true, false, not, Option, none, some, List, [], ◌∷◌, ◌++◌, ltb,
  if◌then◌else◌, add32, sub32, ◌>>=◌,
}
use corosync.SortQueue.{Sq, lt_compare, item_get, items_release}
pub mod Shift
mod Examples

-- The variables of struct totemsrp_instance for it, with the buffers that are released.
pub record Holding (A : Type 0) : Type 0 where
  pub sort_queue : Sq A
  pub my_last_aru : ℕ
  pub my_high_delivered : ℕ
  pub last_released : ℕ
  pub released : List A

-- The lesser of two numbers by sq_lt_compare.
abbrev pub at_most : ℕ → ℕ → ℕ
at_most a release_to = if lt_compare a release_to then a else release_to

module _ {A : Type 0} where
  -- Up to where messages may be released.
  abbrev pub release_to : Holding A → ℕ → ℕ
  release_to s token_aru = at_most s.my_high_delivered (at_most s.my_last_aru token_aru)

  -- The loop of messages_free, with `n` turns left: what is left of the queue, and the buffers released.
  unfoldable pub release_messages : Sq A → List A → ℕ → ℕ → ℕ → Option (Sq A × List A)
  release_messages sq released last_released zero i = some (sq, released)
  release_messages sq released last_released (suc n) i =
      item_get sq (add32 last_released i) >>= λ r.
      release_messages (items_release sq (add32 last_released i))
        (elim r [ none ↦ released | some x ↦ released ++ x ∷ [] ]) last_released n (suc i)

  -- messages_free, with QUEUE_RTR_ITEMS_SIZE_MAX; `none` is its assertion.
  unfoldable pub messages_free : Holding A → ℕ → Option (Holding A)
  unfolding release_messages
  messages_free s token_aru =
      let range = sub32 (release_to s token_aru) s.last_released in
      let rest = release_messages s.sort_queue s.released s.last_released range 1 >>= λ r.
      some (record s {
        sort_queue = r.0;
        released = r.1;
        last_released = add32 s.last_released range;
      }) in
      if lt_compare (release_to s token_aru) s.last_released
      then some s
      else if not (ltb range 16384)
      then none
      else rest
