-- ===== src/Votequorum/TieBreaker/Exclusion.antt =====
-- The list of tie breaker nodes in exec/votequorum.c at the halves of a split.
use corosync.Prelude.{ℕ, ◌≡◌, refl, true, false, List, [], ◌∷◌, ◌++◌, arith}
use corosync.Votequorum.TieBreaker.{is_in_nodelist, any_in_nodelist, atb_list_from}

any_in_nodelist-append :
    (xs : List ℕ) (n : ℕ) (previous : List ℕ)
    → is_in_nodelist n previous ≡ true
    → any_in_nodelist (xs ++ n ∷ []) previous ≡ true
unfolding any_in_nodelist
any_in_nodelist-append [] n previous h = rw h
any_in_nodelist-append (x ∷ xs) n previous h =
    ground (arith, any_in_nodelist-append xs n previous h)

any_in_nodelist-extend :
    (xs : List ℕ) (n : ℕ) (previous : List ℕ)
    → any_in_nodelist xs previous ≡ true
    → any_in_nodelist (xs ++ n ∷ []) previous ≡ true
unfolding any_in_nodelist
any_in_nodelist-extend [] n previous h = cc
any_in_nodelist-extend (x ∷ xs) n previous h = ground (arith, any_in_nodelist-extend xs n previous)

-- After a predecessor that was in the previous partition, the loop can only refuse.
atb_list_from_blocked :
    (passed rest members previous : List ℕ)
    → any_in_nodelist passed previous ≡ true
    → atb_list_from passed rest members previous ≡ false
unfolding atb_list_from
atb_list_from_blocked passed [] members previous h = refl
atb_list_from_blocked passed (n ∷ rest) members previous h = ground (
  arith,
  atb_list_from_blocked (passed ++ n ∷ []) rest members previous
      (any_in_nodelist-extend passed n previous h),
)

-- Both halves of a split cannot pass the tie breaker list: two disjoint sets of members, both of them
-- part of the previous partition, never both get a yes.
pub atb_list_from_exclusive :
    (passed rest ours theirs previous : List ℕ)
    → ((n : ℕ) → is_in_nodelist n ours ≡ true → is_in_nodelist n previous ≡ true)
    → ((n : ℕ) → is_in_nodelist n theirs ≡ true → is_in_nodelist n previous ≡ true)
    → ((n : ℕ) → is_in_nodelist n ours ≡ true → is_in_nodelist n theirs ≡ false)
    → atb_list_from passed rest ours previous ≡ true
    → atb_list_from passed rest theirs previous ≡ false
unfolding atb_list_from
atb_list_from_exclusive passed [] ours theirs previous p q d h = refl
atb_list_from_exclusive passed (n ∷ rest) ours theirs previous p q d h = ground (
  arith,
  p n,
  q n,
  d n,
  any_in_nodelist-append passed n previous,
  atb_list_from_blocked (passed ++ n ∷ []) rest ours previous,
  atb_list_from_blocked (passed ++ n ∷ []) rest theirs previous,
  atb_list_from_exclusive (passed ++ n ∷ []) rest ours theirs previous p q d,
)
