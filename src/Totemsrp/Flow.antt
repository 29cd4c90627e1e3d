-- ===== src/Totemsrp/Flow.antt =====
-- The flow control of exec/totemsrp.c: how many messages a node may send while it holds the token.
use corosync.Prelude.{
  ℕ, ◌+◌, ◌-◌, ◌*◌, ◌/◌, ◌%◌, ◌^◌, Bool, true, false, Option, none, some, ltb, leb, ◌==◌,
  if◌then◌else◌, add32, sub32, u32_mod,
}
use corosync.SortQueue.{lt_compare}
use corosync.Totemsrp.Membership.{MembState, operational, recovery}
pub mod Window
pub mod Limit
mod Examples

-- The variables of struct totemsrp_instance for the flow control.
pub record Flow : Type 0 where
  pub my_trc : ℕ
  pub my_pbl : ℕ
  pub my_cbl : ℕ

-- The fields of struct orf_token for it.
pub record FlowToken : Type 0 where
  pub seq : ℕ
  pub fcc : ℕ
  pub backlog : ℕ

-- backlog_get, with the messages in the three queues
unfoldable pub backlog_get : MembState → Bool → ℕ → ℕ → ℕ → ℕ
backlog_get memb_state waiting_trans_ack new_messages new_messages_trans retrans_messages =
    elim memb_state [
      | operational ↦ if waiting_trans_ack then new_messages_trans else new_messages
      | recovery ↦ retrans_messages
      | _ ↦ 0
    ]

-- The first test of fcc_calculate.
abbrev pub window_left : ℕ → ℕ → FlowToken → ℕ
window_left max_messages window_size token =
    if ltb (sub32 window_size token.fcc) max_messages
    then sub32 window_size token.fcc
    else max_messages

-- The backlog of the whole ring, when this node has `my_cbl`.
abbrev pub ring_backlog : Flow → FlowToken → ℕ
ring_backlog s token = sub32 (add32 token.backlog s.my_cbl) s.my_pbl

-- The second test.
abbrev pub share : ℕ → Flow → FlowToken → ℕ → ℕ
share window_size s token transmits_allowed =
    let backlog_calc = (window_size * s.my_pbl) % u32_mod / ring_backlog s token in
    if ring_backlog s token == 0
    then transmits_allowed
    else if leb backlog_calc 0
    then transmits_allowed
    else if ltb backlog_calc transmits_allowed
    then backlog_calc
    else transmits_allowed

-- fcc_calculate, where `backlog` is what backlog_get answers
unfoldable pub fcc_calculate : ℕ → ℕ → Flow → FlowToken → ℕ → Flow × ℕ
fcc_calculate max_messages window_size s token backlog =
    let t = record s { my_cbl = backlog } in
    (t, share window_size t token (window_left max_messages window_size token))

-- What fcc_rtr_limit compares with the sequence number of the token.
abbrev pub limit : ℕ → ℕ → ℕ → ℕ
limit window_size last_released transmits_allowed =
    sub32 (sub32 (add32 last_released 16384) transmits_allowed) window_size

-- fcc_rtr_limit, with QUEUE_RTR_ITEMS_SIZE_MAX; `none` is its assertion.
unfoldable pub fcc_rtr_limit : ℕ → ℕ → FlowToken → ℕ → Option ℕ
fcc_rtr_limit window_size last_released token transmits_allowed =
    if leb (2 ^ 31) (sub32 16384 (add32 transmits_allowed window_size))
    then none
    else some (
        if lt_compare (limit window_size last_released transmits_allowed) token.seq
        then 0
        else transmits_allowed)

-- fcc_token_update
unfoldable pub fcc_token_update : Flow → FlowToken → ℕ → Flow × FlowToken
fcc_token_update s token msgs_transmitted = (
  record s { my_trc = msgs_transmitted; my_pbl = s.my_cbl },
  record token {
    fcc = add32 token.fcc (sub32 msgs_transmitted s.my_trc);
    backlog = add32 token.backlog (sub32 s.my_cbl s.my_pbl);
  },
)
