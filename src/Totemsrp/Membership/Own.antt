-- ===== src/Totemsrp/Membership/Own.antt =====
-- The node's own entry in its lists, in exec/totemsrp.c.
use corosync.Prelude.{
  ℕ, ◌<◌, ◌≡◌, refl, ◌∙◌, Bool, true, false, not, ◌&&◌, ◌||◌, none, some, List, [], ◌∷◌, ltb, ◌==◌,
  if◌then◌else◌, length, arith,
}
use corosync.Totemsrp.Sets.{contains, all_contained, memb_set_subset, memb_set_merge}
use corosync.Totemsrp.Sets.Contents.{contains-memb_set_subtract, contains-memb_set_merge}
use corosync.Totemsrp.Membership.{
  Instance, ConsensusItem, MembState, gather, consensus_find, consensus_store, all_set, token_memb,
  memb_consensus_set, memb_consensus_reset, lowest_from, memb_consensus_agreed,
  memb_lowest_in_config, consensus_notset, memb_state_gather_enter,
  memb_state_consensus_timeout_expired,
}

abbrev pub is_gather : MembState → Bool
is_gather gather = true
is_gather _ = false

-- The node is in its own list of processors, is not in its list of failed ones while it receives, and
-- has its own consensus while it gathers.
pub record OwnIsValid (s : Instance) : Type 0 where
  pub in_proc : contains s.my_id s.my_proc_list ≡ true
  pub alive : s.failed_to_recv || not (contains s.my_id s.my_failed_list) ≡ true
  pub voted : not (is_gather s.memb_state) || consensus_find s.consensus_list s.my_id ≡ true

pub consensus_find-store :
    (items : List ConsensusItem) (addr x : ℕ)
    → consensus_find (consensus_store items addr) x ≡ x == addr || consensus_find items x
unfolding consensus_find consensus_store
consensus_find-store [] addr x = ground arith
consensus_find-store (item ∷ rest) addr x = ground (arith, consensus_find-store rest addr x)

pub memb_set_subset_one : (x : ℕ) (xs : List ℕ) → memb_set_subset (x ∷ []) xs ≡ contains x xs
unfolding memb_set_subset all_contained contains
memb_set_subset_one x [] = refl
memb_set_subset_one x (y ∷ ys) = ground arith

length-contains : (x : ℕ) (xs : List ℕ) → contains x xs ≡ true → 0 < length xs
unfolding contains
length-contains x [] h = ground arith
length-contains x (y ∷ ys) h = omega arith

own_in_token_memb :
    (s : Instance)
    → OwnIsValid s
    → s.failed_to_recv ≡ false
    → contains s.my_id (token_memb s) ≡ true
own_in_token_memb s v h =
    contains-memb_set_subtract s.my_id s.my_proc_list s.my_failed_list
    ∙ ground (arith, h, v.in_proc, v.alive)

agreed_of :
    (items : List ConsensusItem) (xs : List ℕ) (f : Bool) (x : ℕ)
    → f || contains x xs ≡ true
    → (if all_set items xs && f
        then some (all_set items xs)
        else if ltb 0 (length xs)
        then some (all_set items xs)
        else none)
      ≡ some (all_set items xs)
unfolding all_set contains
agreed_of items [] f x h = ground arith
agreed_of items (y ∷ ys) f x h = ground arith

-- For a node that is valid in itself the assertion of memb_consensus_agreed holds.
pub memb_consensus_agreed_total :
    (s : Instance) → OwnIsValid s → (agreed : Bool) × (memb_consensus_agreed s ≡ some agreed)
unfolding memb_consensus_agreed
memb_consensus_agreed_total s v = (
  all_set s.consensus_list (token_memb s),
  agreed_of s.consensus_list (token_memb s) s.failed_to_recv s.my_id
      (ground (arith, own_in_token_memb s v)),
)

lowest_some :
    (xs : List ℕ) (my_id : ℕ)
    → contains my_id xs ≡ true
    → (lowest : Bool) × ((elim xs [ [] ↦ none | y ∷ ys ↦ some (lowest_from y ys == my_id) ])
        ≡ some lowest)
unfolding contains
lowest_some [] my_id h = ground arith
lowest_some (y ∷ ys) my_id h = (_, refl)

pub memb_lowest_in_config_total :
    (s : Instance)
    → OwnIsValid s
    → s.failed_to_recv ≡ false
    → (lowest : Bool) × (memb_lowest_in_config s ≡ some lowest)
unfolding memb_lowest_in_config
memb_lowest_in_config_total s v h = lowest_some (token_memb s) s.my_id (own_in_token_memb s v h)

pub memb_state_gather_enter-OwnIsValid :
    (s : Instance)
    → s.failed_to_recv || not (contains s.my_id s.my_failed_list) ≡ true
    → OwnIsValid (memb_state_gather_enter s)
unfolding memb_state_gather_enter memb_consensus_set memb_consensus_reset contains
memb_state_gather_enter-OwnIsValid s h = record {
  in_proc = contains-memb_set_merge s.my_id (s.my_id ∷ []) s.my_proc_list ∙ ground arith;
  alive = h;
  voted = consensus_find-store [] s.my_id s.my_id ∙ ground arith;
}

contains-consensus_notset :
    (items : List ConsensusItem) (xs : List ℕ) (x : ℕ)
    → contains x (consensus_notset items xs) ≡ contains x xs && not (consensus_find items x)
unfolding contains consensus_notset
contains-consensus_notset items [] x = refl
contains-consensus_notset items (y ∷ xs) x = ground (arith, contains-consensus_notset items xs x)

consensus_timeout_failed :
    (s : Instance)
    → OwnIsValid s
    → is_gather s.memb_state ≡ true
    → s.failed_to_recv
        || not (
            contains s.my_id
              (memb_set_merge (consensus_notset s.consensus_list s.my_proc_list) s.my_failed_list))
      ≡ true
consensus_timeout_failed s v g = ground (
  arith,
  g,
  v.alive,
  v.voted,
  contains-memb_set_merge s.my_id (consensus_notset s.consensus_list s.my_proc_list)
      s.my_failed_list,
  contains-consensus_notset s.consensus_list s.my_proc_list s.my_id,
)

-- The node when the processors without consensus become failed.
abbrev failing : Instance → Instance
failing s = record s {
  my_failed_list =
      memb_set_merge (consensus_notset s.consensus_list s.my_proc_list) s.my_failed_list;
}

reset_own :
    (s : Instance) → OwnIsValid s → OwnIsValid (memb_consensus_set (memb_consensus_reset s) s.my_id)
unfolding memb_consensus_set memb_consensus_reset
reset_own s v = record {
  in_proc = v.in_proc;
  alive = v.alive;
  voted = ground (arith, consensus_find-store [] s.my_id s.my_id);
}

-- When the consensus of a node that is valid in itself times out in the GATHER state, no assertion fails
-- and the node stays valid in itself.
pub consensus_timeout-OwnIsValid :
    (s : Instance)
    → OwnIsValid s
    → is_gather s.memb_state ≡ true
    → (t : Instance) × (memb_state_consensus_timeout_expired s ≡ some t) × OwnIsValid t
unfolding memb_state_consensus_timeout_expired
consensus_timeout-OwnIsValid s v g = timeout (memb_consensus_agreed_total s v)
  where
    timeout :
        (agreed : Bool) × (memb_consensus_agreed s ≡ some agreed)
        → (t : Instance) × (memb_state_consensus_timeout_expired s ≡ some t) × OwnIsValid t
    timeout (true, e) = (
      memb_consensus_set (memb_consensus_reset s) s.my_id,
      rw (memb_state_consensus_timeout_expired, e) refl,
      reset_own s v,
    )
    timeout (false, e) = (
      memb_state_gather_enter (failing s),
      rw (memb_state_consensus_timeout_expired, e) refl,
      memb_state_gather_enter-OwnIsValid (failing s) (consensus_timeout_failed s v g),
    )
