-- ===== src/Totemsrp/Flow/Examples.antt =====
-- The theorems about the flow control of exec/totemsrp.c at a ring of two nodes.
use corosync.Prelude.{ℕ, ◌+◌, ◌≤◌, ◌<◌, ◌≡◌, ◌⊎◌, refl, none, some, [], ◌∷◌, arith}
use corosync.Totemsrp.Flow.{Flow, FlowToken, fcc_calculate, fcc_rtr_limit, fcc_token_update}
use corosync.Totemsrp.Flow.Limit.{Limits, fcc_rtr_limit_lem}
use corosync.Totemsrp.Flow.Window.{Reach, sent, waiting, fcc_calculate_lem, Reach-window}

abbrev new_node : Flow
new_node = record { my_trc = 0; my_pbl = 0; my_cbl = 0 }

abbrev new_token : FlowToken
new_token = record { seq = 0; fcc = 0; backlog = 0 }

-- The first node has sent 17 of 30 messages, with at most 17 in a turn and 50 in the window.
abbrev busy_node : Flow
busy_node = record { my_trc = 17; my_pbl = 30; my_cbl = 30 }

abbrev token_back : FlowToken
token_back = record { seq = 17; fcc = 17; backlog = 30 }

one_visit : Reach 17 50 100 (busy_node ∷ new_node ∷ []) token_back
unfolding fcc_calculate fcc_token_update
one_visit =
    Reach.visit [] new_node (new_node ∷ []) new_token 30 17 17 _ _
      (Reach.start _ _ (refl, refl, (refl, refl, tt)) refl refl) (omega arith) (omega arith) refl
      refl

Reach-window_example :
    (token_back.fcc ≡ sent (busy_node ∷ new_node ∷ []))
    × (token_back.backlog ≡ waiting (busy_node ∷ new_node ∷ []))
    × (sent (busy_node ∷ new_node ∷ []) ≤ 50)
Reach-window_example =
    Reach-window 17 50 100 (busy_node ∷ new_node ∷ []) token_back (omega arith) (omega arith)
      one_visit

fcc_calculate_lem_example :
    (0 < (fcc_calculate 17 50 new_node token_back 40).1)
    × ((fcc_calculate 17 50 new_node token_back 40).1 ≤ 17)
    × ((fcc_calculate 17 50 new_node token_back 40).1 + token_back.fcc ≤ 50)
fcc_calculate_lem_example =
    fcc_calculate_lem 17 50 new_node token_back 40 (omega arith) (omega arith) (omega arith)

fcc_rtr_limit_lem_example :
    ((16384 < 17 + 50) × (fcc_rtr_limit 50 5 token_back 17 ≡ none))
    ⊎ ((17 + 50 ≤ 16384)
        × ((n : ℕ) × (fcc_rtr_limit 50 5 token_back 17 ≡ some n) × Limits 50 12 17 n))
fcc_rtr_limit_lem_example =
    fcc_rtr_limit_lem 50 5 12 17 token_back (omega arith) (omega arith) refl (omega arith)
