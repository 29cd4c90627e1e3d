-- ===== src/Totempg/Empty.antt =====
-- The zero length iovecs that mcast_msg of exec/totempg.c removes.
use corosync.Prelude.{ℕ, suc, ◌≡◌, refl, ap, false, List, [], ◌∷◌, ◌++◌, length, arith, ◌==◌}
use corosync.Totempg.Send.{remove_empty}
use corosync.Totempg.Loops.{joined, NoneEmpty}

suc_not_zero : (n : ℕ) → (suc n == 0) ≡ false
suc_not_zero n = ground arith

pub joined-remove_empty : (vs : List (List ℕ)) → joined (remove_empty vs) ≡ joined vs
unfolding remove_empty
joined-remove_empty [] = refl
joined-remove_empty ([] ∷ vs) = joined-remove_empty vs
joined-remove_empty ((x ∷ v) ∷ vs) =
    rw (suc_not_zero (length v)) (ap (λ xs. (x ∷ v) ++ xs) (joined-remove_empty vs))

pub remove_empty-NoneEmpty : (vs : List (List ℕ)) → NoneEmpty (remove_empty vs)
unfolding remove_empty
remove_empty-NoneEmpty [] = tt
remove_empty-NoneEmpty ([] ∷ vs) = remove_empty-NoneEmpty vs
remove_empty-NoneEmpty ((x ∷ v) ∷ vs) =
    rw (suc_not_zero (length v)) (omega arith, remove_empty-NoneEmpty vs)
