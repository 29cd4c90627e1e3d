-- ===== src/Ykd/Exclusion.antt =====
-- Two views of exec/vsf_ykd.c that have no node in common, as subquorums of one session.
use corosync.Prelude.{ℕ, ◌+◌, ◌*◌, ◌≤◌, ◌≡◌, refl, true, false, List, [], ◌∷◌, ◌++◌, length, arith}
use corosync.Totemsrp.Sets.{contains, all_contained}
use corosync.Totemsrp.Sets.Contents.{is_unique}
use corosync.Ykd.{Session, hits, intersections, subquorum}

intersections-append :
    (a b members : List ℕ)
    → intersections (a ++ b) members ≡ intersections a members + intersections b members
unfolding intersections
intersections-append [] b members = omega arith
intersections-append (x ∷ a) b members = omega (arith, intersections-append a b members)

intersections-nil : (view : List ℕ) → intersections view [] ≡ 0
unfolding intersections hits
intersections-nil [] = refl
intersections-nil (x ∷ view) = omega (arith, intersections-nil view)

-- How often the loops count one member of the session.
counted :
    (view members : List ℕ) (m : ℕ)
    → intersections view (m ∷ members) ≡ hits m view + intersections view members
unfolding intersections hits
counted [] members m = omega arith
counted (x ∷ view) members m = ground (arith, counted view members m)

hits_absent : (m : ℕ) (view : List ℕ) → contains m view ≡ false → hits m view ≡ 0
unfolding hits contains
hits_absent m [] h = refl
hits_absent m (x ∷ view) h = ground (arith, hits_absent m view)

hits_unique : (m : ℕ) (view : List ℕ) → is_unique view ≡ true → hits m view ≤ 1
unfolding hits is_unique
hits_unique m [] u = omega arith
hits_unique m (x ∷ view) u = ground (arith, hits_unique m view, hits_absent m view)

intersections_le :
    (view members : List ℕ) → is_unique view ≡ true → intersections view members ≤ length members
intersections_le view [] u = omega (arith, intersections-nil view)
intersections_le view (m ∷ members) u =
    omega (arith, counted view members m, hits_unique m view u, intersections_le view members u)

-- Of two views without a common node both are subquorums of a session only if each has exactly half of
-- its members.
pub subquorum_exclusive :
    (a b : List ℕ) (session : Session)
    → is_unique (a ++ b) ≡ true
    → subquorum a session ≡ true
    → subquorum b session ≡ true
    → (length session.member_list ≡ 2 * intersections a session.member_list)
      × (length session.member_list ≡ 2 * intersections b session.member_list)
unfolding subquorum
subquorum_exclusive a b session u h k = ground (
  arith,
  intersections_le (a ++ b) session.member_list u,
  intersections-append a b session.member_list,
)

hits_contained : (x : ℕ) (members : List ℕ) → contains x members ≡ true → 1 ≤ hits x members
unfolding hits contains
hits_contained x [] h = ground arith
hits_contained x (m ∷ members) h = ground (arith, hits_contained x members)

length_le_intersections :
    (view members : List ℕ)
    → all_contained view members ≡ true
    → length view ≤ intersections view members
unfolding intersections all_contained
length_le_intersections [] members h = omega arith
length_le_intersections (x ∷ view) members h =
    ground (arith, hits_contained x members, length_le_intersections view members)

subquorum_half :
    (view : List ℕ) (session : Session)
    → all_contained view session.member_list ≡ true
    → length session.member_list ≡ 2 * length view
    → subquorum view session ≡ true
unfolding subquorum
subquorum_half view session h e = ground (arith, length_le_intersections view session.member_list h)

-- Two views that each are one half of a session are both subquorums of it, also without a common node.
pub subquorum_both :
    (a b : List ℕ) (session : Session)
    → all_contained a session.member_list ≡ true
    → all_contained b session.member_list ≡ true
    → length session.member_list ≡ 2 * length a
    → length session.member_list ≡ 2 * length b
    → (subquorum a session ≡ true) × (subquorum b session ≡ true)
subquorum_both a b session p q e f = (subquorum_half a session p e, subquorum_half b session q f)
