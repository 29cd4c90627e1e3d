-- ===== src/Votequorum/Quorum/Majority.antt =====
-- The quorum of exec/votequorum.c as a majority.
use corosync.Prelude.{
  ℕ, ◌+◌, ◌*◌, ◌/◌, ◌≤◌, ◌<◌, ◌≡◌, Bool, true, false, ◌&&◌, arith, leb, if◌then◌else◌, u32_mod,
  umax,
}
use corosync.Votequorum.State.{State}
use corosync.Votequorum.Quorum.{cluster_tally, counted_expected, calculate_quorum}

-- Whether the special case for two nodes sets the quorum to 1.
abbrev pub two_node_case : State → Bool
two_node_case s = s.two_node && leb (cluster_tally s).total_nodes 2

-- Outside of the two node case, if adding 2 does not wrap, calculate_quorum is the least number above
-- half of the expected votes and half of the votes present, or the old quorum where that may not fall.
pub calculate_quorum_majority :
    (s : State) (allow_decrease : Bool) (max_expected : ℕ)
    → two_node_case s ≡ false
    → (cluster_tally s).total_votes + 2 < u32_mod
    → counted_expected s allow_decrease max_expected (cluster_tally s) + 2 < u32_mod
    → let expected = counted_expected s allow_decrease max_expected (cluster_tally s) in
      let total = (cluster_tally s).total_votes in
      let new = (calculate_quorum s allow_decrease max_expected).0 in
      ((calculate_quorum s allow_decrease max_expected).1 ≡ total)
      × (expected < 2 * new)
      × (total < 2 * new)
      × (new
          ≡ umax (if allow_decrease then 0 else s.quorum) (umax (expected / 2 + 1) (total / 2 + 1)))
unfolding calculate_quorum
calculate_quorum_majority s allow_decrease max_expected n p q = ground arith

-- calculate_quorum returns a positive quorum, 1 in the two node case, and unless it may decrease or
-- that case applies, none below the stored one.
pub calculate_quorum_keeps :
    (s : State) (max_expected : ℕ)
    → ((two_node_case s ≡ true) → (calculate_quorum s false max_expected).0 ≡ 1)
      × ((two_node_case s ≡ false) → s.quorum ≤ (calculate_quorum s false max_expected).0)
unfolding calculate_quorum
calculate_quorum_keeps s max_expected = (λ e. ground arith, λ e. ground arith)
