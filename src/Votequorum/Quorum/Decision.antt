-- ===== src/Votequorum/Quorum/Decision.antt =====
-- What are_we_quorate of exec/votequorum.c decides, and what it reports.
use corosync.Prelude.{
  ℕ, suc, ◌+◌, ◌≡◌, Bool, false, not, ◌||◌, some, List, [], ◌∷◌, arith, if◌then◌else◌, has_flag,
}
use corosync.Votequorum.State.{State, Output, our_node, quorum_callback, flag_quorate}
use corosync.Votequorum.Nodes.{get_lowest_node_id, get_highest_node_id}
use corosync.Votequorum.Quorum.{
  update_wait_for_all_status, set_quorate, decide_quorate, are_we_quorate, wins_by_votes,
  wins_by_tie_breaker, wins_by_qdevice,
}

pub set_quorate_decision :
    (s : State) (quorate : Bool) → (set_quorate s quorate).cluster_is_quorate ≡ quorate
unfolding set_quorate
set_quorate_decision s quorate = ground arith

set_quorate_flag :
    (s : State) (quorate : Bool)
    → has_flag flag_quorate (our_node (set_quorate s quorate)).flags ≡ quorate
unfolding set_quorate
set_quorate_flag s quorate = ground arith

set_quorate_waits :
    (s : State) (quorate : Bool)
    → (set_quorate s quorate).wait_for_all_status
      ≡ (if s.wait_for_all then not quorate else s.wait_for_all_status)
unfolding set_quorate
set_quorate_waits s quorate = ground arith

-- How often the service told the rest of the program whether the cluster is quorate.
pub callbacks : List Output → ℕ
callbacks [] = 0
callbacks (quorum_callback members ring quorate ∷ rest) = suc (callbacks rest)
callbacks (_ ∷ rest) = callbacks rest

callbacks-set_quorate :
    (s : State) (quorate : Bool)
    → callbacks (set_quorate s quorate).outputs
      ≡ callbacks s.outputs
        + (if s.sync_in_progress
            then 0
            else if s.cluster_is_quorate
            then (if quorate then 0 else 1)
            else if quorate
            then 1
            else 0)
unfolding set_quorate callbacks
callbacks-set_quorate s quorate = ground arith

-- The state in which are_we_quorate takes its decision.
abbrev pub polled : State → ℕ → State
polled s total_votes =
    if wins_by_votes s total_votes then get_highest_node_id (get_lowest_node_id s) else s

-- A decision of are_we_quorate is the disjunction of the three ways to be quorate; the flag that the
-- node sends to the others says the same, and wait_for_all, where it is set, waits exactly if not.
pub decide_quorate_lem :
    (s : State) (total_votes : ℕ)
    → let quorate =
        wins_by_votes s total_votes
        || wins_by_tie_breaker (polled s total_votes) total_votes
        || wins_by_qdevice (polled s total_votes) in
      ((decide_quorate s total_votes).cluster_is_quorate ≡ quorate)
      × (has_flag flag_quorate (our_node (decide_quorate s total_votes)).flags ≡ quorate)
      × ((decide_quorate s total_votes).wait_for_all_status ≡ (
          if (polled s total_votes).wait_for_all
          then not quorate
          else (polled s total_votes).wait_for_all_status))
unfolding decide_quorate
decide_quorate_lem s total_votes =
    (set_quorate_decision _ _, set_quorate_flag _ _, set_quorate_waits _ _)

-- What changes of the two states tells.
abbrev pub flips : Bool → Bool → Bool → ℕ
flips syncing before after =
    if syncing then 0 else if before then (if after then 0 else 1) else if after then 1 else 0

polled_same :
    (s : State) (total_votes : ℕ)
    → (callbacks (polled s total_votes).outputs ≡ callbacks s.outputs)
      × ((polled s total_votes).sync_in_progress ≡ s.sync_in_progress)
      × ((polled s total_votes).cluster_is_quorate ≡ s.cluster_is_quorate)
unfolding get_lowest_node_id get_highest_node_id callbacks
polled_same s total_votes = ground arith

callbacks-decide :
    (s : State) (total_votes : ℕ)
    → callbacks (decide_quorate s total_votes).outputs
      ≡ callbacks s.outputs
        + flips s.sync_in_progress s.cluster_is_quorate
            (decide_quorate s total_votes).cluster_is_quorate
unfolding decide_quorate
callbacks-decide s total_votes = ground (
  arith,
  callbacks-set_quorate (polled s total_votes) (
      wins_by_votes s total_votes
      || wins_by_tie_breaker (polled s total_votes) total_votes
      || wins_by_qdevice (polled s total_votes)),
  set_quorate_decision (polled s total_votes) (
      wins_by_votes s total_votes
      || wins_by_tie_breaker (polled s total_votes) total_votes
      || wins_by_qdevice (polled s total_votes)),
  polled_same s total_votes,
)

waiting_same :
    (s : State) (status : Bool)
    → (callbacks (update_wait_for_all_status s status).outputs ≡ callbacks s.outputs)
      × ((update_wait_for_all_status s status).sync_in_progress ≡ s.sync_in_progress)
      × ((update_wait_for_all_status s status).cluster_is_quorate ≡ s.cluster_is_quorate)
unfolding update_wait_for_all_status callbacks
waiting_same s status = ground arith

-- Outside of a synchronisation are_we_quorate calls the quorum callback exactly once when the cluster
-- becomes quorate or stops being so, and never otherwise; during one it never calls it.
pub are_we_quorate-callbacks :
    (s s' : State) (total_votes : ℕ)
    → are_we_quorate s total_votes ≡ some s'
    → callbacks s'.outputs
      ≡ callbacks s.outputs + flips s.sync_in_progress s.cluster_is_quorate s'.cluster_is_quorate
unfolding are_we_quorate
are_we_quorate-callbacks s s' total_votes e = ground (
  arith,
  callbacks-decide s total_votes,
  callbacks-decide (update_wait_for_all_status s false) total_votes,
  waiting_same s false,
)
