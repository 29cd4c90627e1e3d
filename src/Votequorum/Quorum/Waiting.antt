-- ===== src/Votequorum/Quorum/Waiting.antt =====
-- wait_for_all and the assertion in are_we_quorate of exec/votequorum.c.
use corosync.Prelude.{
  ℕ, ◌≡◌, ◌∙◌, sym, refl, Bool, true, false, Option, some, arith, inl, inr, Bool-cases,
  if◌then◌else◌, ◌&&◌, ◌==◌,
}
use corosync.Votequorum.State.{State, our_node}
use corosync.Votequorum.Quorum.{
  update_wait_for_all_status, update_node_expected_votes, set_quorate, decide_quorate,
  are_we_quorate, raise_expected, track_expected, update_ev_tracking_barrier, recalculate_quorum,
  calculate_quorum,
}
use corosync.Votequorum.Quorum.Decision.{polled, decide_quorate_lem}
use corosync.Votequorum.Quorum.Partition.{prepared, updated, counted, recalculate_quorum_lem}

-- What the assertion needs.
abbrev pub WaitsInquorate : State → Type 0
WaitsInquorate s =
    s.wait_for_all ≡ true → s.wait_for_all_status ≡ true → s.cluster_is_quorate ≡ false

-- The second state waits and decides as the first one.
pub record SameWait (s t : State) : Type 0 where
  pub 0 : t.wait_for_all ≡ s.wait_for_all
  pub 1 : t.wait_for_all_status ≡ s.wait_for_all_status
  pub 2 : t.cluster_is_quorate ≡ s.cluster_is_quorate

pub SameWait-WaitsInquorate : (s t : State) → SameWait s t → WaitsInquorate s → WaitsInquorate t
SameWait-WaitsInquorate s t e h w p = e.2 ∙ h (sym e.0 ∙ w) (sym e.1 ∙ p)

pub SameWait-refl : (s : State) → SameWait s s
SameWait-refl s = (refl, refl, refl)

pub SameWait-trans : (s t u : State) → SameWait s t → SameWait t u → SameWait s u
SameWait-trans s t u p q = (q.0 ∙ p.0, q.1 ∙ p.1, q.2 ∙ p.2)

pub SameWait-if :
    (b : Bool) (s t u : State) → SameWait s t → SameWait s u → SameWait s (if b then t else u)
SameWait-if true s t u p q = p
SameWait-if false s t u p q = q

-- The same for a handler that also answers.
pub SameWait-if_answer :
    {A : Type 0} (b : Bool) (s : State) (t u : State × A)
    → SameWait s t.0
    → SameWait s u.0
    → SameWait s (if b then t else u).0
SameWait-if_answer true s t u p q = p
SameWait-if_answer false s t u p q = q

wait_for_all-decide :
    (s : State) (total_votes : ℕ)
    → (decide_quorate s total_votes).wait_for_all ≡ (polled s total_votes).wait_for_all
unfolding decide_quorate set_quorate update_wait_for_all_status
wait_for_all-decide s total_votes = ground arith

decide_quorate-WaitsInquorate :
    (s : State) (total_votes : ℕ) → WaitsInquorate (decide_quorate s total_votes)
decide_quorate-WaitsInquorate s total_votes w p =
    ground (arith, wait_for_all-decide s total_votes, decide_quorate_lem s total_votes)

-- A call that cannot abort, and that keeps what the assertion needs.
abbrev pub Safely : Option State → Type 0
Safely r = (t : State) × (r ≡ some t) × WaitsInquorate t

are_we_quorate-Safely :
    (s : State) (total_votes : ℕ) → WaitsInquorate s → Safely (are_we_quorate s total_votes)
unfolding are_we_quorate
are_we_quorate-Safely s total_votes h =
    elim (Bool-cases (s.wait_for_all && s.wait_for_all_status)) [
      | inr ready ↦
          (decide_quorate s total_votes, rw ready, decide_quorate-WaitsInquorate s total_votes)
      | inl waits ↦ elim (Bool-cases (total_votes == (our_node s).expected_votes)) [
        | inl all_there ↦ (
          decide_quorate (update_wait_for_all_status s false) total_votes,
          rw (waits, all_there),
          decide_quorate-WaitsInquorate (update_wait_for_all_status s false) total_votes,
        )
        | inr missing ↦ (s, ground (arith, h), h)
      ]
    ]

SameWait-updated : (s : State) (allow by : Bool) → SameWait s (updated s allow by)
unfolding updated prepared raise_expected track_expected update_ev_tracking_barrier
    update_node_expected_votes
SameWait-updated s allow by = ground arith

-- recalculate_quorum never fails its assertion on a state in which waiting means not quorate, and it
-- leaves such a state.
pub recalculate_quorum-Safely :
    (s : State) (allow_decrease by_current_nodes : Bool)
    → WaitsInquorate s
    → Safely (recalculate_quorum s allow_decrease by_current_nodes)
recalculate_quorum-Safely s allow by h =
    let (t, e, k) =
      are_we_quorate-Safely (updated s allow by)
        (calculate_quorum (prepared s) allow (counted s by)).1
        (SameWait-WaitsInquorate s (updated s allow by) (SameWait-updated s allow by) h) in
    (t, recalculate_quorum_lem s allow by ∙ e, k)
