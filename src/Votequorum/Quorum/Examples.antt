-- ===== src/Votequorum/Quorum/Examples.antt =====
-- The theorems about the quorum calculation of exec/votequorum.c at concrete clusters.
use corosync.Prelude.{
  ℕ, List, [], ◌∷◌, ◌+◌, ◌*◌, ◌/◌, ◌<◌, ◌≡◌, refl, true, false, Option, none, some, arith, umax,
}
use corosync.Votequorum.State.{State, member, atb_list}
use corosync.Votequorum.Nodes.{
  get_lowest_node_id, get_highest_node_id, lowest_from, highest_from, check_qdevice_master,
  master_in,
}
use corosync.Votequorum.Clusters.{voter, majority, minority}
use corosync.Votequorum.TieBreaker.{
  is_in_nodelist, any_in_nodelist, atb_list_from, check_auto_tie_breaker,
}
use corosync.Votequorum.Quorum.{
  tally, tally_node, cluster_tally, counted_expected, calculate_quorum, wins_by_votes,
  wins_by_tie_breaker, wins_by_qdevice, set_quorate, decide_quorate, are_we_quorate, sum_votes,
  get_total_votes, raise_expected, track_expected, update_node_expected_votes, recalculate_quorum,
}
use corosync.Votequorum.Quorum.Decision.{callbacks, flips, are_we_quorate-callbacks}
use corosync.Votequorum.Quorum.Majority.{calculate_quorum_majority}
use corosync.Votequorum.Quorum.Split.{IsPart, are_we_quorate_exclusive}
use corosync.Votequorum.Quorum.Partition.{
  ByVotes, prepared, recalculate_quorum_majority, recalculate_quorum_exclusive,
}

-- All that a run of recalculate_quorum computes with.
evaluated : State → Option State
unfolding recalculate_quorum get_total_votes sum_votes raise_expected track_expected
    update_node_expected_votes calculate_quorum cluster_tally tally tally_node counted_expected
    are_we_quorate decide_quorate set_quorate wins_by_votes wins_by_tie_breaker wins_by_qdevice
    get_lowest_node_id get_highest_node_id lowest_from highest_from check_qdevice_master master_in
    prepared
evaluated s = recalculate_quorum s false false

abbrev run : State → State
unfolding evaluated
run s = elim (evaluated s) [ none ↦ s | some t ↦ t ]

majority-run : recalculate_quorum majority false false ≡ some (run majority)
unfolding evaluated
majority-run = refl

minority-run : recalculate_quorum minority false false ≡ some (run minority)
unfolding evaluated
minority-run = refl

majority_quorate : (run majority).cluster_is_quorate ≡ true
unfolding evaluated
majority_quorate = refl

majority-ByVotes : ByVotes majority false false
unfolding evaluated
majority-ByVotes = record {
  no_tie_breaker = refl;
  no_master = refl;
  not_two_nodes = refl;
  total_small = omega arith;
  expected_small = omega arith;
  quorum_small = omega arith;
}

minority-ByVotes : ByVotes minority false false
unfolding evaluated
minority-ByVotes = record {
  no_tie_breaker = refl;
  no_master = refl;
  not_two_nodes = refl;
  total_small = omega arith;
  expected_small = omega arith;
  quorum_small = omega arith;
}

recalculate_quorum_majority_example :
    counted_expected (prepared majority) false 0 (cluster_tally (prepared majority))
    < 2 * (cluster_tally majority).total_votes
recalculate_quorum_majority_example =
    recalculate_quorum_majority majority (run majority) false false majority-ByVotes majority-run
      majority_quorate

recalculate_quorum_exclusive_example : (run minority).cluster_is_quorate ≡ false
unfolding evaluated
recalculate_quorum_exclusive_example =
    recalculate_quorum_exclusive majority minority (run majority) (run minority) false false 3
      majority-ByVotes minority-ByVotes (omega arith) (omega arith) (omega arith) majority-run
      minority-run majority_quorate

calculate_quorum_majority_example :
    let expected = counted_expected majority false 0 (cluster_tally majority) in
    let total = (cluster_tally majority).total_votes in
    let new = (calculate_quorum majority false 0).0 in
    ((calculate_quorum majority false 0).1 ≡ total)
    × (expected < 2 * new)
    × (total < 2 * new)
    × (new ≡ umax 2 (umax (expected / 2 + 1) (total / 2 + 1)))
unfolding evaluated
calculate_quorum_majority_example =
    calculate_quorum_majority majority false 0 refl (omega arith) (omega arith)

abbrev decided : State
unfolding evaluated
decided = decide_quorate majority 2

majority-decided : are_we_quorate majority 2 ≡ some decided
unfolding evaluated
majority-decided = refl

are_we_quorate-callbacks_example :
    callbacks decided.outputs
    ≡ callbacks majority.outputs + flips false false decided.cluster_is_quorate
are_we_quorate-callbacks_example = are_we_quorate-callbacks majority decided 2 majority-decided

-- The halves of four nodes, with node 2 as the first of the tie breakers.
abbrev half : ℕ → List ℕ → State
half id members = record majority {
  cluster_nodes = λ p. record (voter id member) { expected_votes = 4 };
  auto_tie_breaker = atb_list;
  atb_nodelist = 2 ∷ 3 ∷ [];
  quorum = 3;
  quorum_members = members;
  previous_quorum_members = 1 ∷ 2 ∷ 3 ∷ 4 ∷ [];
}

abbrev left : State
left = half 1 (1 ∷ 2 ∷ [])

abbrev right : State
right = half 3 (3 ∷ 4 ∷ [])

left-IsPart : IsPart left 4 2 (2 ∷ 3 ∷ []) (1 ∷ 2 ∷ 3 ∷ 4 ∷ [])
unfolding is_in_nodelist
left-IsPart = record {
  by_list = refl;
  no_master = refl;
  same_list = refl;
  same_previous = refl;
  all_expected = refl;
  majority = refl;
  one_vote = refl;
  from_previous = λ n h. ground arith;
}

right-IsPart : IsPart right 4 2 (2 ∷ 3 ∷ []) (1 ∷ 2 ∷ 3 ∷ 4 ∷ [])
unfolding is_in_nodelist
right-IsPart = record {
  by_list = refl;
  no_master = refl;
  same_list = refl;
  same_previous = refl;
  all_expected = refl;
  majority = refl;
  one_vote = refl;
  from_previous = λ n h. ground arith;
}

halves_apart :
    (n : ℕ) → is_in_nodelist n (1 ∷ 2 ∷ []) ≡ true → is_in_nodelist n (3 ∷ 4 ∷ []) ≡ false
unfolding is_in_nodelist
halves_apart n h = ground arith

abbrev decided_left : State
decided_left = decide_quorate left 2

abbrev decided_right : State
decided_right = decide_quorate right 2

left-decided : are_we_quorate left 2 ≡ some decided_left
unfolding are_we_quorate
left-decided = refl

right-decided : are_we_quorate right 2 ≡ some decided_right
unfolding are_we_quorate
right-decided = refl

left_wins : decided_left.cluster_is_quorate ≡ true
unfolding decide_quorate set_quorate wins_by_votes wins_by_tie_breaker wins_by_qdevice
    get_lowest_node_id get_highest_node_id check_auto_tie_breaker atb_list_from is_in_nodelist
    any_in_nodelist
left_wins = refl

are_we_quorate_exclusive_example : decided_right.cluster_is_quorate ≡ false
are_we_quorate_exclusive_example =
    are_we_quorate_exclusive left right decided_left decided_right 4 2 2 (2 ∷ 3 ∷ [])
      (1 ∷ 2 ∷ 3 ∷ 4 ∷ []) left-IsPart right-IsPart refl (omega arith) halves_apart left-decided
      right-decided left_wins
