-- ===== src/Votequorum/Nodes/Extremes.antt =====
-- get_lowest_node_id and get_highest_node_id of exec/votequorum.c.
use corosync.Prelude.{
  ℕ, ◌≡◌, refl, true, false, ◌&&◌, ◌⊎◌, List, [], ◌∷◌, inl, arith, slt32, if◌then◌else◌,
}
use corosync.Votequorum.State.{Node, State, our_node}
use corosync.Votequorum.Nodes.{
  is_member, lowest_from, highest_from, has_member, get_lowest_node_id, get_highest_node_id,
  check_low_node_id_partition, check_high_node_id_partition,
}

module _ (nodes : ℕ → Node) where
  -- No member of the list has an id below the bound, as int.
  abbrev pub NoneBelow : ℕ → List ℕ → Type 0
  NoneBelow bound [] = Unit {0}
  NoneBelow bound (p ∷ rest) =
      (is_member (nodes p).state ≡ true → slt32 (nodes p).node_id bound ≡ false)
      × NoneBelow bound rest

  lowest_from_le : (lowest : ℕ) (ps : List ℕ) → slt32 lowest (lowest_from nodes lowest ps) ≡ false
  unfolding lowest_from
  lowest_from_le lowest [] = ground arith
  lowest_from_le lowest (p ∷ rest) =
      ground (arith, lowest_from_le lowest rest, lowest_from_le (nodes p).node_id rest)

  lowest_from-NoneBelow : (lowest : ℕ) (ps : List ℕ) → NoneBelow (lowest_from nodes lowest ps) ps
  unfolding lowest_from
  lowest_from-NoneBelow lowest [] = tt
  lowest_from-NoneBelow lowest (p ∷ rest) = (
    λ m. ground (arith, m, lowest_from_le lowest rest, lowest_from_le (nodes p).node_id rest),
    lowest_from-NoneBelow
        (if is_member (nodes p).state && slt32 (nodes p).node_id lowest
          then (nodes p).node_id
          else lowest)
        rest,
  )

  lowest_from_found :
      (lowest : ℕ) (ps : List ℕ)
      → (lowest_from nodes lowest ps ≡ lowest)
        ⊎ (has_member nodes (lowest_from nodes lowest ps) ps ≡ true)
  unfolding lowest_from has_member
  lowest_from_found lowest [] = inl refl
  lowest_from_found lowest (p ∷ rest) =
      ground (arith, lowest_from_found lowest rest, lowest_from_found (nodes p).node_id rest)

  -- No member of the list has an id above the bound, as int.
  abbrev pub NoneAbove : ℕ → List ℕ → Type 0
  NoneAbove bound [] = Unit {0}
  NoneAbove bound (p ∷ rest) =
      (is_member (nodes p).state ≡ true → slt32 bound (nodes p).node_id ≡ false)
      × NoneAbove bound rest

  highest_from_ge :
      (highest : ℕ) (ps : List ℕ) → slt32 (highest_from nodes highest ps) highest ≡ false
  unfolding highest_from
  highest_from_ge highest [] = ground arith
  highest_from_ge highest (p ∷ rest) =
      ground (arith, highest_from_ge highest rest, highest_from_ge (nodes p).node_id rest)

  highest_from-NoneAbove :
      (highest : ℕ) (ps : List ℕ) → NoneAbove (highest_from nodes highest ps) ps
  unfolding highest_from
  highest_from-NoneAbove highest [] = tt
  highest_from-NoneAbove highest (p ∷ rest) = (
    λ m. ground (arith, m, highest_from_ge highest rest, highest_from_ge (nodes p).node_id rest),
    highest_from-NoneAbove
        (if is_member (nodes p).state && slt32 highest (nodes p).node_id
          then (nodes p).node_id
          else highest)
        rest,
  )

  highest_from_found :
      (highest : ℕ) (ps : List ℕ)
      → (highest_from nodes highest ps ≡ highest)
        ⊎ (has_member nodes (highest_from nodes highest ps) ps ≡ true)
  unfolding highest_from has_member
  highest_from_found highest [] = inl refl
  highest_from_found highest (p ∷ rest) =
      ground (arith, highest_from_found highest rest, highest_from_found (nodes p).node_id rest)

-- get_lowest_node_id finds an id that no member and not our own is below, and if we are a member of
-- the list ourselves, the test for the lowest id holds right after.
pub get_lowest_node_id_lem :
    (s : State)
    → NoneBelow s.cluster_nodes (get_lowest_node_id s).lowest_node_id s.cluster_members_list
      × (slt32 (our_node s).node_id (get_lowest_node_id s).lowest_node_id ≡ false)
      × (has_member s.cluster_nodes (our_node s).node_id s.cluster_members_list ≡ true
          → check_low_node_id_partition (get_lowest_node_id s) ≡ true)
unfolding get_lowest_node_id check_low_node_id_partition
get_lowest_node_id_lem s = (
  lowest_from-NoneBelow s.cluster_nodes (our_node s).node_id s.cluster_members_list,
  lowest_from_le s.cluster_nodes (our_node s).node_id s.cluster_members_list,
  λ h.
      ground
        (arith, lowest_from_found s.cluster_nodes (our_node s).node_id s.cluster_members_list, h),
)

-- get_highest_node_id finds an id that no member and not our own is above, and if we are a member of
-- the list ourselves, the test for the highest id holds right after.
pub get_highest_node_id_lem :
    (s : State)
    → NoneAbove s.cluster_nodes (get_highest_node_id s).highest_node_id s.cluster_members_list
      × (slt32 (get_highest_node_id s).highest_node_id (our_node s).node_id ≡ false)
      × (has_member s.cluster_nodes (our_node s).node_id s.cluster_members_list ≡ true
          → check_high_node_id_partition (get_highest_node_id s) ≡ true)
unfolding get_highest_node_id check_high_node_id_partition
get_highest_node_id_lem s = (
  highest_from-NoneAbove s.cluster_nodes (our_node s).node_id s.cluster_members_list,
  highest_from_ge s.cluster_nodes (our_node s).node_id s.cluster_members_list,
  λ h.
      ground
        (arith, highest_from_found s.cluster_nodes (our_node s).node_id s.cluster_members_list, h),
)
