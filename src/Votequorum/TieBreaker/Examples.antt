-- ===== src/Votequorum/TieBreaker/Examples.antt =====
-- The tie breaker list of exec/votequorum.c at a concrete split.
use corosync.Prelude.{ℕ, ◌≡◌, refl, true, false, List, [], ◌∷◌, arith}
use corosync.Votequorum.TieBreaker.{is_in_nodelist, any_in_nodelist, atb_list_from}
use corosync.Votequorum.TieBreaker.Exclusion.{atb_list_from_exclusive}

abbrev left_half : List ℕ
left_half = 1 ∷ 2 ∷ []

abbrev right_half : List ℕ
right_half = 3 ∷ 4 ∷ []

abbrev whole : List ℕ
whole = 1 ∷ 2 ∷ 3 ∷ 4 ∷ []

left_part : (n : ℕ) → is_in_nodelist n left_half ≡ true → is_in_nodelist n whole ≡ true
unfolding is_in_nodelist
left_part n h = ground arith

right_part : (n : ℕ) → is_in_nodelist n right_half ≡ true → is_in_nodelist n whole ≡ true
unfolding is_in_nodelist
right_part n h = ground arith

halves_apart : (n : ℕ) → is_in_nodelist n left_half ≡ true → is_in_nodelist n right_half ≡ false
unfolding is_in_nodelist
halves_apart n h = ground arith

left_wins : atb_list_from [] (2 ∷ 3 ∷ []) left_half whole ≡ true
unfolding atb_list_from is_in_nodelist any_in_nodelist
left_wins = refl

atb_list_from_exclusive_example : atb_list_from [] (2 ∷ 3 ∷ []) right_half whole ≡ false
atb_list_from_exclusive_example =
    atb_list_from_exclusive [] (2 ∷ 3 ∷ []) left_half right_half whole left_part right_part
      halves_apart left_wins
