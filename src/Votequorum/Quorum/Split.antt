-- ===== src/Votequorum/Quorum/Split.antt =====
-- The auto tie breaker in are_we_quorate of exec/votequorum.c, where a cluster splits.
use corosync.Prelude.{
  ℕ, ◌+◌, ◌/◌, ◌≤◌, ◌<◌, ◌≡◌, ap, sym, ◌∙◌, inl, inr, Bool-cases, true, false, some, List, [],
  length, ◌⊎◌, arith,
}
use corosync.Votequorum.State.{State, our_node, atb_list}
use corosync.Votequorum.Nodes.{get_lowest_node_id, get_highest_node_id}
use corosync.Votequorum.TieBreaker.{is_in_nodelist, atb_list_from, check_auto_tie_breaker}
use corosync.Votequorum.TieBreaker.Exclusion.{atb_list_from_exclusive}
use corosync.Votequorum.Quorum.{
  update_wait_for_all_status, decide_quorate, are_we_quorate, wins_by_votes, wins_by_tie_breaker,
  wins_by_qdevice,
}
use corosync.Votequorum.Quorum.Decision.{decide_quorate_lem}

-- The two ways to be quorate with a tie breaker list and without master_wins: by votes, or as the half that the list
-- prefers.
abbrev Wins : State → ℕ → Type 0
Wins s total_votes =
    (s.quorum ≤ total_votes)
    ⊎ ((total_votes ≡ (our_node s).expected_votes / 2)
        × (length s.previous_quorum_members < s.quorum + length s.quorum_members)
        × (atb_list_from [] s.atb_nodelist s.quorum_members s.previous_quorum_members ≡ true))

decide_quorate-Wins :
    (s : State) (total_votes : ℕ)
    → s.auto_tie_breaker ≡ atb_list
    → s.qdevice_master_wins ≡ false
    → (decide_quorate s total_votes).cluster_is_quorate ≡ true
    → Wins s total_votes
unfolding wins_by_votes wins_by_tie_breaker wins_by_qdevice check_auto_tie_breaker
    get_lowest_node_id get_highest_node_id
decide_quorate-Wins s total_votes a m q = ground (arith, (decide_quorate_lem s total_votes).0)

stopped_waiting :
    (s : State) (total_votes : ℕ)
    → Wins (update_wait_for_all_status s false) total_votes
    → Wins s total_votes
unfolding update_wait_for_all_status
stopped_waiting s total_votes w = ground (arith, w)

are_we_quorate-Wins :
    (s s' : State) (total_votes : ℕ)
    → s.auto_tie_breaker ≡ atb_list
    → s.qdevice_master_wins ≡ false
    → are_we_quorate s total_votes ≡ some s'
    → s'.cluster_is_quorate ≡ true
    → Wins s total_votes
unfolding are_we_quorate update_wait_for_all_status
are_we_quorate-Wins s s' total_votes a m e q = ground (
  arith,
  decide_quorate-Wins s total_votes a m,
  decide_quorate-Wins (update_wait_for_all_status s false) total_votes,
  stopped_waiting s total_votes,
)

-- A node in one part of a cluster of `nodes` nodes with a vote each, all of which were in the part before, `previous`.
pub record IsPart (s : State) (nodes total_votes : ℕ) (list previous : List ℕ) : Type 0 where
  pub by_list : s.auto_tie_breaker ≡ atb_list
  pub no_master : s.qdevice_master_wins ≡ false
  pub same_list : s.atb_nodelist ≡ list
  pub same_previous : s.previous_quorum_members ≡ previous
  pub all_expected : (our_node s).expected_votes ≡ nodes
  pub majority : s.quorum ≡ nodes / 2 + 1
  pub one_vote : total_votes ≡ length s.quorum_members
  pub from_previous :
      (n : ℕ) → is_in_nodelist n s.quorum_members ≡ true → is_in_nodelist n previous ≡ true

IsPart-Wins :
    (s : State) (nodes total_votes : ℕ) (list previous : List ℕ)
    → IsPart s nodes total_votes list previous
    → Wins s total_votes
    → (nodes / 2 + 1 ≤ total_votes)
      ⊎ ((total_votes ≡ nodes / 2)
          × (length previous < nodes / 2 + 1 + total_votes)
          × (atb_list_from [] list s.quorum_members previous ≡ true))
IsPart-Wins s nodes total_votes list previous p w = elim w [
  | inl votes ↦ inl (omega (arith, votes, p.majority))
  | inr (half, guard, first) ↦ inr (
    half ∙ ap (λ n. n / 2) p.all_expected,
    omega (arith, guard, p.majority, p.one_vote, ap length p.same_previous),
    ap (λ l. atb_list_from [] l s.quorum_members previous) (sym p.same_list)
        ∙ ap (atb_list_from [] s.atb_nodelist s.quorum_members) (sym p.same_previous)
        ∙ first,
  )
]

-- Two parts of a cluster without a node in common are not both quorate, when a list of tie breakers decides between them:
-- all nodes have one vote each and were together before, they have the same list, and the quorum is that of
-- all of them; no quorum device is a master. One half of the nodes wins by the list only when it is exactly the half.
pub are_we_quorate_exclusive :
    (s₁ s₂ s₁' s₂' : State) (nodes votes₁ votes₂ : ℕ) (list previous : List ℕ)
    → IsPart s₁ nodes votes₁ list previous
    → IsPart s₂ nodes votes₂ list previous
    → length previous ≡ nodes
    → votes₁ + votes₂ ≤ nodes
    → ((n : ℕ)
        → is_in_nodelist n s₁.quorum_members ≡ true
        → is_in_nodelist n s₂.quorum_members ≡ false)
    → are_we_quorate s₁ votes₁ ≡ some s₁'
    → are_we_quorate s₂ votes₂ ≡ some s₂'
    → s₁'.cluster_is_quorate ≡ true
    → s₂'.cluster_is_quorate ≡ false
are_we_quorate_exclusive s₁ s₂ s₁' s₂' nodes votes₁ votes₂ list previous p₁ p₂ all sum apart e₁ e₂
      q =
    elim (Bool-cases s₂'.cluster_is_quorate) [
      | inr no' ↦ no'
      | inl yes' ↦
          (let w₁ =
              IsPart-Wins s₁ nodes votes₁ list previous p₁
                (are_we_quorate-Wins s₁ s₁' votes₁ p₁.by_list p₁.no_master e₁ q) in
            let w₂ =
              IsPart-Wins s₂ nodes votes₂ list previous p₂
                (are_we_quorate-Wins s₂ s₂' votes₂ p₂.by_list p₂.no_master e₂ yes') in
            let other =
              atb_list_from_exclusive [] list s₁.quorum_members s₂.quorum_members previous
                p₁.from_previous p₂.from_previous apart in
            absurd (elim w₁ [
              | inl many₁ ↦ elim w₂ [
                | inl many₂ ↦ omega (arith, many₁, many₂, sum)
                | inr (half₂, guard₂, _) ↦ omega (arith, many₁, half₂, guard₂, sum, all)
              ]
              | inr (half₁, guard₁, first₁) ↦ elim w₂ [
                | inl many₂ ↦ omega (arith, many₂, half₁, guard₁, sum, all)
                | inr (_, _, first₂) ↦ (let lost = other first₁ in cc)
              ]
            ]))
    ]
