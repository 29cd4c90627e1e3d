-- ===== src/Votequorum/Quorum.antt =====
-- The quorum calculation of exec/votequorum.c.
pub mod Decision
pub mod Majority
pub mod Partition
pub mod Split
pub mod Waiting
mod Examples
use corosync.Prelude.{
  ℕ, suc, ◌+◌, ◌/◌, ◌%◌, Bool, true, false, not, ◌&&◌, ◌||◌, Option, none, some, List, [], ◌∷◌, leb,
  ltb, ◌==◌, if◌then◌else◌, add32, umax, update, has_flag, set_flag, clear_flag, length,
}
use corosync.Votequorum.State.{
  Node, State, AutoTieBreaker, atb_none, our_node, our_flags, emit, modify_node, icmap_set,
  quorum_callback, quorum_notification, expectedvotes_notification, write_ev_tracking,
  wait_for_all_status_key, ev_barrier_key, ev_tracking_barrier_key, qdevice_master_wins_key,
  flag_quorate, flag_wfastatus, flag_qdevice_cast_vote,
}
use corosync.Votequorum.Nodes.{
  is_member, get_lowest_node_id, get_highest_node_id, check_qdevice_master,
}
use corosync.Votequorum.TieBreaker.{check_auto_tie_breaker}

-- A Boolean as the source's 0 or 1.
abbrev pub bit : Bool → ℕ
bit true = 1
bit false = 0

-- update_wait_for_all_status
unfoldable pub update_wait_for_all_status : State → Bool → State
update_wait_for_all_status s wfa_status =
    let t = record s { wait_for_all_status = wfa_status } in
    emit
      (if wfa_status
        then our_flags t (set_flag flag_wfastatus)
        else our_flags t (clear_flag flag_wfastatus))
      (icmap_set wait_for_all_status_key (bit wfa_status))

-- update_ev_barrier
unfoldable pub update_ev_barrier : State → ℕ → State
update_ev_barrier s expected_votes =
    emit (record s { ev_barrier = expected_votes }) (icmap_set ev_barrier_key expected_votes)

-- update_qdevice_master_wins
unfoldable pub update_qdevice_master_wins : State → Bool → State
update_qdevice_master_wins s allow =
    emit (record s { qdevice_master_wins = allow }) (icmap_set qdevice_master_wins_key (bit allow))

-- update_ev_tracking_barrier. The write to the state file is an output; its errors are only logged.
pub update_ev_tracking_barrier : State → ℕ → State
update_ev_tracking_barrier s barrier =
    emit
      (emit (record s { ev_tracking_barrier = barrier })
        (icmap_set ev_tracking_barrier_key barrier))
      (write_ev_tracking barrier)

-- What one loop over the members adds up.
pub record Tally : Type 0 where
  pub total_votes : ℕ
  pub highest_expected : ℕ
  pub total_nodes : ℕ

-- The body of the loop of calculate_quorum.
unfoldable pub tally_node : Tally → Node → Tally
tally_node t n =
    if is_member n.state
    then record {
      total_votes = add32 t.total_votes n.votes;
      highest_expected = umax t.highest_expected n.expected_votes;
      total_nodes = suc t.total_nodes;
    }
    else t

unfoldable pub tally : (ℕ → Node) → Tally → List ℕ → Tally
tally nodes t [] = t
tally nodes t (p ∷ rest) = tally nodes (tally_node t (nodes p)) rest

-- The tally of calculate_quorum, the vote of the quorum device included.
unfoldable pub cluster_tally : State → Tally
cluster_tally s =
    let t =
      tally s.cluster_nodes (record { total_votes = 0; highest_expected = 0; total_nodes = 0 })
        s.cluster_members_list in
    if has_flag flag_qdevice_cast_vote (our_node s).flags
    then record t {
      total_votes = add32 t.total_votes (s.cluster_nodes s.qdevice).votes;
      total_nodes = suc t.total_nodes;
    }
    else t

-- The expected votes that calculate_quorum counts with.
unfoldable pub counted_expected : State → Bool → ℕ → Tally → ℕ
counted_expected s allow_decrease max_expected t =
    let capped =
      if s.allow_downscale && allow_decrease && ltb 0 max_expected
      then umax s.ev_barrier max_expected
      else max_expected in
    if ltb 0 capped then capped else t.highest_expected

-- calculate_quorum: the new quorum and the total of the votes.
unfoldable pub calculate_quorum : State → Bool → ℕ → ℕ × ℕ
calculate_quorum s allow_decrease max_expected =
    let t = cluster_tally s in
    let q1 = add32 (counted_expected s allow_decrease max_expected t) 2 / 2 in
    let q2 = add32 t.total_votes 2 / 2 in
    let majority = umax q1 q2 in
    let kept = if allow_decrease then majority else umax s.quorum majority in
    (if s.two_node && leb t.total_nodes 2 then 1 else kept, t.total_votes)

-- The loop of update_node_expected_votes.
pub expect_votes : (ℕ → Node) → ℕ → List ℕ → ℕ → Node
expect_votes nodes votes [] = nodes
expect_votes nodes votes (p ∷ rest) =
    expect_votes
      (if is_member (nodes p).state
        then update nodes p (record (nodes p) { expected_votes = votes })
        else nodes)
      votes rest

-- update_node_expected_votes
unfoldable pub update_node_expected_votes : State → ℕ → State
update_node_expected_votes s votes =
    if ltb 0 votes
    then record s { cluster_nodes = expect_votes s.cluster_nodes votes s.cluster_members_list }
    else s

abbrev pub has_tie_breaker : AutoTieBreaker → Bool
has_tie_breaker atb_none = false
has_tie_breaker _ = true

-- The three tests of are_we_quorate, in the state after the node ids are updated.
pub wins_by_votes : State → ℕ → Bool
wins_by_votes s total_votes = not (ltb total_votes s.quorum)

pub wins_by_tie_breaker : State → ℕ → Bool
wins_by_tie_breaker s total_votes =
    has_tie_breaker s.auto_tie_breaker
    && total_votes == (our_node s).expected_votes / 2
    && ltb (length s.previous_quorum_members) (s.quorum + length s.quorum_members)
    && check_auto_tie_breaker s

pub wins_by_qdevice : State → Bool
wins_by_qdevice s = s.qdevice_master_wins && check_qdevice_master s

-- The end of are_we_quorate, from the decision on.
pub set_quorate : State → Bool → State
unfolding update_wait_for_all_status
set_quorate s quorate =
    let change = not (s.cluster_is_quorate && quorate) && (s.cluster_is_quorate || quorate) in
    let t = record s { cluster_is_quorate = quorate } in
    let u = our_flags t (if quorate then set_flag flag_quorate else clear_flag flag_quorate) in
    let w = if u.wait_for_all then update_wait_for_all_status u (not quorate) else u in
    if change && not w.sync_in_progress
    then emit (emit w (quorum_callback w.quorum_members w.quorum_ringid quorate))
        quorum_notification
    else w

-- The middle of are_we_quorate.
pub decide_quorate : State → ℕ → State
decide_quorate s total_votes =
    let by_votes = wins_by_votes s total_votes in
    let t = if by_votes then get_highest_node_id (get_lowest_node_id s) else s in
    set_quorate t (by_votes || wins_by_tie_breaker t total_votes || wins_by_qdevice t)

-- are_we_quorate: `none` is the failed assertion that a cluster that waits is not quorate.
pub are_we_quorate : State → ℕ → Option State
are_we_quorate s total_votes =
    if s.wait_for_all && s.wait_for_all_status
    then (if total_votes == (our_node s).expected_votes
        then some (decide_quorate (update_wait_for_all_status s false) total_votes)
        else if s.cluster_is_quorate
        then none
        else some s)
    else some (decide_quorate s total_votes)

-- The loop of get_total_votes.
pub sum_votes : (ℕ → Node) → ℕ × ℕ → List ℕ → ℕ × ℕ
sum_votes nodes t [] = t
sum_votes nodes t (p ∷ rest) =
    sum_votes nodes (if is_member (nodes p).state then (add32 t.0 (nodes p).votes, suc t.1) else t)
      rest

-- get_total_votes: the votes and the number of members, with the quorum device if it has votes.
pub get_total_votes : State → ℕ × ℕ
get_total_votes s =
    let t = sum_votes s.cluster_nodes (0, 0) s.cluster_members_list in
    let votes = (s.cluster_nodes s.qdevice).votes in
    if ltb 0 votes then (add32 t.0 votes, suc t.1) else t

-- The start of recalculate_quorum: expected votes never stand below the votes that are there.
pub raise_expected : State → ℕ → State
raise_expected s total_votes =
    if ltb (our_node s).expected_votes total_votes
    then emit (modify_node s s.us (λ n. record n { expected_votes = total_votes }))
        (expectedvotes_notification total_votes)
    else s

pub track_expected : State → State
track_expected s =
    if s.ev_tracking && ltb s.ev_tracking_barrier (our_node s).expected_votes
    then update_ev_tracking_barrier s (our_node s).expected_votes
    else s

-- recalculate_quorum. The new quorum is stored in a uint8_t.
pub recalculate_quorum : State → Bool → Bool → Option State
recalculate_quorum s allow_decrease by_current_nodes =
    let (votes, members) = get_total_votes s in
    let cluster_members = if by_current_nodes then members else 0 in
    let t = track_expected (raise_expected s votes) in
    let (newquorum, total_votes) = calculate_quorum t allow_decrease cluster_members in
    let u = update_node_expected_votes (record t { quorum = newquorum % 256 }) cluster_members in
    are_we_quorate u total_votes
