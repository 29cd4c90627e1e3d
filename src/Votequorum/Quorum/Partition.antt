-- ===== src/Votequorum/Quorum/Partition.antt =====
-- recalculate_quorum of exec/votequorum.c in the parts of a split cluster.
use corosync.Prelude.{
  ℕ, ◌+◌, ◌*◌, ◌%◌, ◌≤◌, ◌<◌, ◌≡◌, refl, sym, ◌∙◌, Bool, true, false, some, List, [], ◌∷◌, arith,
  if◌then◌else◌, u32_mod, ==→eq,
}
use corosync.Votequorum.State.{Node, State, atb_none}
use corosync.Votequorum.Nodes.{get_lowest_node_id, get_highest_node_id}
use corosync.Votequorum.Quorum.{
  Tally, tally, tally_node, cluster_tally, counted_expected, calculate_quorum, wins_by_votes,
  wins_by_tie_breaker, wins_by_qdevice, decide_quorate, are_we_quorate, update_wait_for_all_status,
  get_total_votes, raise_expected, track_expected, update_node_expected_votes, recalculate_quorum,
  update_ev_tracking_barrier,
}
use corosync.Votequorum.Quorum.Decision.{decide_quorate_lem}
use corosync.Votequorum.Quorum.Majority.{two_node_case, calculate_quorum_majority}

-- The state in which recalculate_quorum calls calculate_quorum.
unfoldable pub prepared : State → State
prepared s = track_expected (raise_expected s (get_total_votes s).0)

quorate_by_votes :
    (s : State) (total_votes : ℕ)
    → s.auto_tie_breaker ≡ atb_none
    → s.qdevice_master_wins ≡ false
    → (decide_quorate s total_votes).cluster_is_quorate ≡ true
    → s.quorum ≤ total_votes
unfolding wins_by_votes wins_by_tie_breaker wins_by_qdevice get_lowest_node_id get_highest_node_id
quorate_by_votes s total_votes a m e = ground (arith, (decide_quorate_lem s total_votes).0)

-- Without tie breaker and master_wins, only enough votes make the cluster quorate.
pub are_we_quorate_votes :
    (s s' : State) (total_votes : ℕ)
    → s.auto_tie_breaker ≡ atb_none
    → s.qdevice_master_wins ≡ false
    → are_we_quorate s total_votes ≡ some s'
    → s'.cluster_is_quorate ≡ true
    → s.quorum ≤ total_votes
unfolding are_we_quorate update_wait_for_all_status
are_we_quorate_votes s s' total_votes a m e q = ground (
  arith,
  quorate_by_votes s total_votes a m,
  quorate_by_votes (update_wait_for_all_status s false) total_votes,
)

prepared_switches :
    (s : State)
    → ((prepared s).auto_tie_breaker ≡ s.auto_tie_breaker)
      × ((prepared s).qdevice_master_wins ≡ s.qdevice_master_wins)
unfolding prepared raise_expected track_expected update_ev_tracking_barrier
prepared_switches s = ground arith

expect_votes_switches :
    (s : State) (votes : ℕ)
    → ((update_node_expected_votes s votes).auto_tie_breaker ≡ s.auto_tie_breaker)
      × ((update_node_expected_votes s votes).qdevice_master_wins ≡ s.qdevice_master_wins)
      × ((update_node_expected_votes s votes).quorum ≡ s.quorum)
unfolding update_node_expected_votes
expect_votes_switches s votes = ground arith

-- The two node arrays differ in the expected votes alone, and there the second has no less.
abbrev pub Raised : (ℕ → Node) → (ℕ → Node) → Type 0
Raised old new =
    (p : ℕ)
    → ((new p).state ≡ (old p).state)
      × ((new p).votes ≡ (old p).votes)
      × ((new p).flags ≡ (old p).flags)
      × ((old p).expected_votes ≤ (new p).expected_votes)

abbrev pub TallyLe : Tally → Tally → Type 0
TallyLe t u =
    (u.total_votes ≡ t.total_votes)
    × (u.total_nodes ≡ t.total_nodes)
    × (t.highest_expected ≤ u.highest_expected)

tally-Raised :
    (old new : ℕ → Node) (t u : Tally) (ps : List ℕ)
    → Raised old new
    → TallyLe t u
    → TallyLe (tally old t ps) (tally new u ps)
unfolding tally tally_node
tally-Raised old new t u [] r h = h
tally-Raised old new t u (p ∷ ps) r h =
    tally-Raised old new (tally_node t (old p)) (tally_node u (new p)) ps r (ground (arith, r p))

Raised-refl : (nodes : ℕ → Node) → Raised nodes nodes
Raised-refl nodes p = (refl, refl, refl, omega arith)

Raised-prepared : (s : State) → Raised s.cluster_nodes (prepared s).cluster_nodes
unfolding prepared raise_expected track_expected update_ev_tracking_barrier
Raised-prepared s p = ground (arith, ==→eq p s.us)

prepared_pointers :
    (s : State)
    → ((prepared s).us ≡ s.us)
      × ((prepared s).qdevice ≡ s.qdevice)
      × ((prepared s).cluster_members_list ≡ s.cluster_members_list)
      × ((prepared s).two_node ≡ s.two_node)
      × ((prepared s).quorum ≡ s.quorum)
unfolding prepared raise_expected track_expected update_ev_tracking_barrier
prepared_pointers s = ground arith

abbrev no_tally : Tally
no_tally = record { total_votes = 0; highest_expected = 0; total_nodes = 0 }

cluster_tally-Raised :
    (s t : State)
    → t.us ≡ s.us
    → t.qdevice ≡ s.qdevice
    → t.cluster_members_list ≡ s.cluster_members_list
    → Raised s.cluster_nodes t.cluster_nodes
    → TallyLe (cluster_tally s) (cluster_tally t)
unfolding cluster_tally
cluster_tally-Raised s t u q l r = ground (
  arith,
  tally-Raised s.cluster_nodes t.cluster_nodes no_tally no_tally s.cluster_members_list r
      (refl, refl, omega arith),
  r s.us,
  r s.qdevice,
)

cluster_tally-prepared : (s : State) → TallyLe (cluster_tally s) (cluster_tally (prepared s))
cluster_tally-prepared s =
    let (u, q, l, _, _) = prepared_pointers s in
    cluster_tally-Raised s (prepared s) u q l (Raised-prepared s)

-- The members that recalculate_quorum counts expected votes by.
abbrev pub counted : State → Bool → ℕ
counted s by_current_nodes = if by_current_nodes then (get_total_votes s).1 else 0

-- What keeps the decision of a node to the votes alone, and its numbers small enough for a uint8_t.
pub record ByVotes (s : State) (allow_decrease by_current_nodes : Bool) : Type 0 where
  pub no_tie_breaker : s.auto_tie_breaker ≡ atb_none
  pub no_master : s.qdevice_master_wins ≡ false
  pub not_two_nodes : two_node_case s ≡ false
  pub total_small : (cluster_tally s).total_votes + 2 < u32_mod
  pub expected_small :
      counted_expected
          (prepared s)
          allow_decrease
          (counted s by_current_nodes)
          (cluster_tally (prepared s))
        + 2
      < u32_mod
  pub quorum_small :
      (calculate_quorum (prepared s) allow_decrease (counted s by_current_nodes)).0 < 256

-- The state that recalculate_quorum hands to are_we_quorate.
unfoldable pub updated : State → Bool → Bool → State
updated s allow by =
    update_node_expected_votes
      (record (prepared s) {
        quorum = (calculate_quorum (prepared s) allow (counted s by)).0 % 256;
      })
      (counted s by)

pub recalculate_quorum_lem :
    (s : State) (allow by : Bool)
    → recalculate_quorum s allow by
      ≡ are_we_quorate (updated s allow by) (calculate_quorum (prepared s) allow (counted s by)).1
unfolding recalculate_quorum prepared updated
recalculate_quorum_lem s allow by = refl

updated_switches :
    (s : State) (allow by : Bool)
    → ((updated s allow by).auto_tie_breaker ≡ s.auto_tie_breaker)
      × ((updated s allow by).qdevice_master_wins ≡ s.qdevice_master_wins)
      × ((updated s allow by).quorum ≡ (calculate_quorum (prepared s) allow (counted s by)).0 % 256)
unfolding updated
updated_switches s allow by = ground (
  arith,
  expect_votes_switches
      (record (prepared s) {
        quorum = (calculate_quorum (prepared s) allow (counted s by)).0 % 256;
      })
      (counted s by),
  prepared_switches s,
)

-- Where only votes count and the quorum fits a uint8_t, a node that recalculate_quorum finds quorate
-- sees more than half of the expected votes, after raising them to the votes that are there.
pub recalculate_quorum_majority :
    (s s' : State) (allow_decrease by_current_nodes : Bool)
    → ByVotes s allow_decrease by_current_nodes
    → recalculate_quorum s allow_decrease by_current_nodes ≡ some s'
    → s'.cluster_is_quorate ≡ true
    → counted_expected
        (prepared s)
        allow_decrease
        (counted s by_current_nodes)
        (cluster_tally (prepared s))
      < 2 * (cluster_tally s).total_votes
recalculate_quorum_majority s s' allow by v e q =
    let t = prepared s in
    let (tie, master, stored) = updated_switches s allow by in
    let (same_total, same_nodes, _) = cluster_tally-prepared s in
    let (_, _, _, same_two, _) = prepared_pointers s in
    let apart : two_node_case t ≡ false = cc (v.not_two_nodes) in
    let small : (cluster_tally t).total_votes + 2 < u32_mod = rw same_total v.total_small in
    let (total, above, _, _) =
      calculate_quorum_majority t allow (counted s by) apart small v.expected_small in
    let enough =
      are_we_quorate_votes (updated s allow by) s' (calculate_quorum t allow (counted s by)).1
        (tie ∙ v.no_tie_breaker) (master ∙ v.no_master)
        (sym (recalculate_quorum_lem s allow by) ∙ e) q in
    omega (arith, v.quorum_small)

-- Two nodes that expect at least `expected` votes each, and whose parts of the cluster have no more than `expected`
-- votes together, are not both quorate after recalculate_quorum. This is where only votes count: without an auto tie
-- breaker, without master_wins, outside of the case of two_node with no more than two nodes in a part, when expected
-- votes are not taken from the nodes that are there, and with numbers so small that nothing wraps and the quorum is
-- less than 256.
pub recalculate_quorum_exclusive :
    (s₁ s₂ s₁' s₂' : State) (allow₁ allow₂ : Bool) (expected : ℕ)
    → ByVotes s₁ allow₁ false
    → ByVotes s₂ allow₂ false
    → expected ≤ (cluster_tally s₁).highest_expected
    → expected ≤ (cluster_tally s₂).highest_expected
    → (cluster_tally s₁).total_votes + (cluster_tally s₂).total_votes ≤ expected
    → recalculate_quorum s₁ allow₁ false ≡ some s₁'
    → recalculate_quorum s₂ allow₂ false ≡ some s₂'
    → s₁'.cluster_is_quorate ≡ true
    → s₂'.cluster_is_quorate ≡ false
unfolding counted_expected
recalculate_quorum_exclusive s₁ s₂ s₁' s₂' allow₁ allow₂ expected v₁ v₂ h₁ h₂ apart e₁ e₂ q =
    ground (
      arith,
      recalculate_quorum_majority s₁ s₁' allow₁ false v₁ e₁ q,
      recalculate_quorum_majority s₂ s₂' allow₂ false v₂ e₂,
      cluster_tally-prepared s₁,
      cluster_tally-prepared s₂,
    )
