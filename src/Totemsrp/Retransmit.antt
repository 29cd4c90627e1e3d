-- ===== src/Totemsrp/Retransmit.antt =====
-- The retransmit list of the token of exec/totemsrp.c.
use corosync.Prelude.{
  ℕ, zero, suc, ◌+◌, Bool, true, false, not, ◌&&◌, ◌||◌, Option, none, some, List, [], ◌∷◌, ◌++◌,
  length, ltb, ◌==◌, if◌then◌else◌, add32, sub32, ◌>>=◌,
}
use corosync.SortQueue.{Sq, in_range, item_get, item_inuse, item_miss_count}
pub mod Sent
pub mod Requests
pub mod Missing

-- struct rtr_item
pub record RtrItem : Type 0 where
  pub ring_rep : ℕ
  pub ring_seq : ℕ
  pub seq : ℕ

-- The sort queue, the list of the token, and the messages that are sent again. In the recovery the queue is the
-- other one.
pub record Rtr (A : Type 0) : Type 0 where
  pub sort_queue : Sq A
  pub rtr_list : List RtrItem
  pub sent : List A

abbrev pub is_of_ring : ℕ → ℕ → RtrItem → Bool
is_of_ring ring_rep ring_seq item = item.ring_rep == ring_rep && item.ring_seq == ring_seq

-- The search of a number in the list.
unfoldable pub is_requested : ℕ → List RtrItem → Bool
is_requested seq [] = false
is_requested seq (item ∷ items) = if seq == item.seq then true else is_requested seq items

-- The list for a number that is missing for the `count`-th time.
abbrev pub request : ℕ → ℕ → ℕ → ℕ → ℕ → List RtrItem → List RtrItem
request ring_rep ring_seq miss_count_const count seq items =
    if ltb count miss_count_const
    then items
    else if is_requested seq items
    then items
    else items ++ (record { ring_rep = ring_rep; ring_seq = ring_seq; seq = seq }) ∷ []

module _ {A : Type 0} where
  -- orf_token_remcast: the message that is sent, or the inner none for -1. The outer one is a failed assertion of
  -- sq_item_get.
  unfoldable pub orf_token_remcast : Sq A → ℕ → Option (Option A)
  orf_token_remcast sq seq = let got = item_get sq seq in if in_range sq seq then got else some none

  -- The first loop of orf_token_rtr, with what is left of fcc_allowed: the requests that stay and what is sent.
  unfoldable pub retransmit : Sq A → ℕ → ℕ → ℕ → List RtrItem → Option (List RtrItem × List A)
  retransmit sq ring_rep ring_seq left [] = some ([], [])
  retransmit sq ring_rep ring_seq zero (item ∷ items) = some (item ∷ items, [])
  retransmit sq ring_rep ring_seq (suc left) (item ∷ items) =
      let keep : Option (List RtrItem × List A) =
        retransmit sq ring_rep ring_seq (suc left) items >>= λ r. some (item ∷ r.0, r.1) in
      let next = orf_token_remcast sq item.seq >>= λ found. elim found [
        | none ↦ keep
        | some m ↦ retransmit sq ring_rep ring_seq left items >>= λ r. some (r.0, m ∷ r.1)
      ] in
      if is_of_ring ring_rep ring_seq item then next else keep

  -- The second loop, with `n` turns left and RETRANSMIT_ENTRIES_MAX.
  unfoldable pub request_missing : ℕ → ℕ → ℕ → ℕ → ℕ → ℕ → Sq A → List RtrItem → Sq A × List RtrItem
  request_missing ring_rep ring_seq miss_count_const my_aru zero i sq items = (sq, items)
  request_missing ring_rep ring_seq miss_count_const my_aru (suc n) i sq items =
      let seq = add32 my_aru i in
      let counted = item_miss_count sq seq in
      let sq' = if item_inuse sq seq then sq else counted.0 in
      let items' =
        if item_inuse sq seq
        then items
        else request ring_rep ring_seq miss_count_const counted.1 seq items in
      let rest = request_missing ring_rep ring_seq miss_count_const my_aru n (suc i) sq' items' in
      if ltb (length items) 30 && in_range sq seq then rest else (sq, items)

  -- orf_token_rtr, for the number of the token and QUEUE_RTR_ITEMS_SIZE_MAX. What remains of fcc_allowed is
  -- fcc_allowed less the messages sent. `none` is an assertion.
  unfoldable pub orf_token_rtr : ℕ → ℕ → ℕ → ℕ → ℕ → ℕ → Rtr A → Option (Rtr A)
  unfolding retransmit request_missing
  orf_token_rtr ring_rep ring_seq miss_count_const my_aru token_seq fcc_allowed s =
      let range = sub32 token_seq my_aru in
      retransmit s.sort_queue ring_rep ring_seq fcc_allowed s.rtr_list >>= λ r.
      let requests =
        request_missing ring_rep ring_seq miss_count_const my_aru range 1 s.sort_queue r.0 in
      if ltb range 16384
      then some (record { sort_queue = requests.0; rtr_list = requests.1; sent = s.sent ++ r.1 })
      else none
