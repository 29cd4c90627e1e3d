-- ===== src/Ykd/Examples.antt =====
-- The theorems about exec/vsf_ykd.c at concrete nodes.
use corosync.Prelude.{
  ℕ, zero, suc, ◌*◌, ◌<◌, ◌≡◌, refl, true, false, none, some, List, [], ◌∷◌, arith,
}
use corosync.Totemsrp.Sets.{contains, all_contained}
use corosync.Totemsrp.Sets.Contents.{is_unique}
use corosync.Ykd.{
  Session, Ykd, mode_attempt, no_state, received_of, hits, intersections, subquorum, compute,
  decide, mark_sender, find_position, all_received, form_primary, ykd_deliver_fn, ykd_confchg_fn,
}
use corosync.Ykd.Exclusion.{subquorum_exclusive, subquorum_both}
use corosync.Ykd.Unnumbered.{Unnumbered, decide-Unnumbered, ykd_deliver_fn-Unnumbered}

abbrev four : Session
four = record { member_list = 1 ∷ 2 ∷ 3 ∷ 4 ∷ []; session_id = 6 }

half : subquorum (1 ∷ 2 ∷ []) four ≡ true
unfolding subquorum intersections hits
half = refl

other_half : subquorum (3 ∷ 4 ∷ []) four ≡ true
unfolding subquorum intersections hits
other_half = refl

subquorum_exclusive_example :
    (4 ≡ 2 * intersections (1 ∷ 2 ∷ []) four.member_list)
    × (4 ≡ 2 * intersections (3 ∷ 4 ∷ []) four.member_list)
unfolding is_unique contains
subquorum_exclusive_example =
    subquorum_exclusive (1 ∷ 2 ∷ []) (3 ∷ 4 ∷ []) four refl half other_half

subquorum_both_example : (subquorum (1 ∷ 2 ∷ []) four ≡ true) × (subquorum (3 ∷ 4 ∷ []) four ≡ true)
unfolding all_contained contains
subquorum_both_example = subquorum_both (1 ∷ 2 ∷ []) (3 ∷ 4 ∷ []) four refl refl refl refl

-- Node 1 of a view of one, in the middle of its attempt.
abbrev attempting : Ykd
attempting = record {
  ykd_state = record no_state { ambiguous_sessions_entries = 1 };
  state_received_process = received_of (1 ∷ []);
  entries = 1;
  ykd_mode = mode_attempt;
  ykd_view_list = 1 ∷ [];
  session_id_max = 0;
  last_primary_max = no_state.last_primary;
  ambiguous_sessions_max = [];
  ykd_primary_designated = false;
  ykd_ring_id = record { nodeid = 1; seq = 4 };
  first_run = false;
  outputs = [];
}

attempting-Unnumbered : Unnumbered attempting.ykd_state
attempting-Unnumbered = λ i. refl

received_of-Unnumbered : (members : List ℕ) (k : ℕ) → Unnumbered (received_of members k).ykd_state
unfolding received_of
received_of-Unnumbered [] k = λ i. refl
received_of-Unnumbered (x ∷ members) zero = λ i. refl
received_of-Unnumbered (x ∷ members) (suc k) = received_of-Unnumbered members k

received_of_small :
    (members : List ℕ) (k : ℕ)
    → (received_of members k).ykd_state.last_primary.session_id < 0x8000_0000
unfolding received_of
received_of_small [] k = omega arith
received_of_small (x ∷ members) zero = omega arith
received_of_small (x ∷ members) (suc k) = received_of_small members k

decide-Unnumbered_example :
    decide (compute attempting) ≡ subquorum (1 ∷ []) (compute attempting).last_primary_max
decide-Unnumbered_example =
    decide-Unnumbered attempting (received_of-Unnumbered (1 ∷ [])) (received_of_small (1 ∷ []))

-- The same node when it has its own message, and is primary.
abbrev marked : Ykd
marked = mark_sender attempting 0

primary_run : ykd_deliver_fn attempting 1 1 none ≡ some (form_primary marked)
unfolding ykd_deliver_fn find_position received_of all_received mark_sender
primary_run = refl

ykd_deliver_fn-Unnumbered_example :
    Unnumbered (form_primary marked).ykd_state
    × Unnumbered (ykd_confchg_fn attempting true (1 ∷ 2 ∷ []) attempting.ykd_ring_id 1).ykd_state
ykd_deliver_fn-Unnumbered_example =
    ykd_deliver_fn-Unnumbered attempting (form_primary marked) 1 1 none true (1 ∷ 2 ∷ [])
      attempting.ykd_ring_id attempting-Unnumbered primary_run
