-- ===== src/Totemsrp/Membership.antt =====
-- The membership algorithm of exec/totemsrp.c: consensus, the join message and the GATHER state.
pub mod Own
pub mod Agreement
pub mod Join
pub mod Events
mod Examples
use corosync.Prelude.{
  ℕ, suc, ◌+◌, Bool, true, false, not, ◌&&◌, ◌||◌, Option, none, some, List, [], ◌∷◌, ◌++◌, ltb,
  ◌==◌, if◌then◌else◌, length,
}
use corosync.Totemsrp.Sets.{
  contains, memb_set_subtract, memb_set_equal, memb_set_subset, memb_set_merge,
}

pub data MembState : Type 0 where
  operational gather commit recovery : MembState

-- struct consensus_list_item
pub record ConsensusItem : Type 0 where
  pub addr : ℕ
  pub set : Bool

-- The commit token that memb_state_commit_token_create fills, as far as the membership decides it.
pub record CommitToken : Type 0 where
  pub rep : ℕ
  pub seq : ℕ
  pub addrs : List ℕ

-- The part of struct totemsrp_instance that the membership algorithm decides on. The switches are
-- Booleans, and `commit_token` is none until a token is created.
pub record Instance : Type 0 where
  pub my_id : ℕ
  pub failed_to_recv : Bool
  pub flushing : Bool
  pub memb_state : MembState
  pub consensus_list : List ConsensusItem
  pub my_proc_list : List ℕ
  pub my_failed_list : List ℕ
  pub my_memb_list : List ℕ
  pub my_leave_memb_list : List ℕ
  pub orf_token_discard : Bool
  pub originated_orf_token : Bool
  pub my_ring_rep : ℕ
  pub my_ring_seq : ℕ
  pub token_ring_id_seq : ℕ
  pub commit_token : Option CommitToken
  pub join_messages_sent : List (List ℕ × List ℕ)

-- struct memb_join: whether the header's type is MESSAGE_TYPE_MEMB_JOIN, its node id, and the lists.
pub record MembJoin : Type 0 where
  pub is_join : Bool
  pub header_nodeid : ℕ
  pub system_from : ℕ
  pub proc_list : List ℕ
  pub failed_list : List ℕ

abbrev pub leave_dummy_nodeid : ℕ
leave_dummy_nodeid = 0

abbrev pub processor_count_max : ℕ
processor_count_max = 384

-- memb_consensus_reset
unfoldable pub memb_consensus_reset : Instance → Instance
memb_consensus_reset s = record s { consensus_list = [] }

-- The loop of memb_consensus_set, and its store after the loop.
unfoldable pub consensus_store : List ConsensusItem → ℕ → List ConsensusItem
consensus_store [] addr = record { addr = addr; set = true } ∷ []
consensus_store (item ∷ rest) addr =
    let later = consensus_store rest addr in
    if addr == item.addr then record { addr = addr; set = true } ∷ rest else item ∷ later

-- memb_consensus_set
unfoldable pub memb_consensus_set : Instance → ℕ → Instance
memb_consensus_set s addr = record s { consensus_list = consensus_store s.consensus_list addr }

unfoldable pub consensus_find : List ConsensusItem → ℕ → Bool
consensus_find [] addr = false
consensus_find (item ∷ rest) addr = if addr == item.addr then item.set else consensus_find rest addr

-- memb_consensus_isset
abbrev pub memb_consensus_isset : Instance → ℕ → Bool
memb_consensus_isset s addr = consensus_find s.consensus_list addr

-- The loop of memb_consensus_agreed.
unfoldable pub all_set : List ConsensusItem → List ℕ → Bool
all_set items [] = true
all_set items (x ∷ xs) = if consensus_find items x then all_set items xs else false

abbrev pub token_memb : Instance → List ℕ
token_memb s = memb_set_subtract s.my_proc_list s.my_failed_list

-- memb_consensus_agreed: `none` is the failed assertion that some processor is left.
unfoldable pub memb_consensus_agreed : Instance → Option Bool
memb_consensus_agreed s =
    let agreed = all_set s.consensus_list (token_memb s) in
    if agreed && s.failed_to_recv
    then some agreed
    else if ltb 0 (length (token_memb s))
    then some agreed
    else none

-- memb_consensus_notset
unfoldable pub consensus_notset : List ConsensusItem → List ℕ → List ℕ
consensus_notset items [] = []
consensus_notset items (x ∷ xs) =
    let rest = consensus_notset items xs in if consensus_find items x then rest else x ∷ rest

-- The loop of memb_lowest_in_config.
unfoldable pub lowest_from : ℕ → List ℕ → ℕ
lowest_from lowest [] = lowest
lowest_from lowest (x ∷ xs) = lowest_from (if ltb x lowest then x else lowest) xs

-- memb_lowest_in_config: `none` is the failed assertion that some processor is left.
unfoldable pub memb_lowest_in_config : Instance → Option Bool
memb_lowest_in_config s = elim (token_memb s) [
  | [] ↦ none
  | x ∷ xs ↦ some (lowest_from x xs == s.my_id)
]

-- my_leave_memb_set; the warning of a full list is left out.
pub my_leave_memb_set : Instance → ℕ → Instance
my_leave_memb_set s nodeid =
    if contains nodeid s.my_leave_memb_list
    then s
    else if ltb (suc (length s.my_leave_memb_list)) processor_count_max
    then record s { my_leave_memb_list = s.my_leave_memb_list ++ nodeid ∷ [] }
    else s

-- memb_state_gather_enter: the timers, the statistics and the log are left out, and the join message
-- that is sent carries the two lists. That the node's id is not 0 is asserted there.
unfoldable pub memb_state_gather_enter : Instance → Instance
unfolding memb_consensus_set memb_consensus_reset
memb_state_gather_enter s =
    let proc_list = memb_set_merge (s.my_id ∷ []) s.my_proc_list in
    let t = record s {
      orf_token_discard = true;
      originated_orf_token = false;
      my_proc_list = proc_list;
      join_messages_sent = (proc_list, s.my_failed_list) ∷ s.join_messages_sent;
    } in
    record (memb_consensus_set (memb_consensus_reset t) t.my_id) { memb_state = gather }

-- memb_state_consensus_timeout_expired: the reset of the token's timeout is left out.
unfoldable pub memb_state_consensus_timeout_expired : Instance → Option Instance
memb_state_consensus_timeout_expired s = elim (memb_consensus_agreed s) [
  | none ↦ none
  | some agreed ↦ some (
      if agreed
      then memb_consensus_set (memb_consensus_reset s) s.my_id
      else memb_state_gather_enter (record s {
        my_failed_list =
            memb_set_merge (consensus_notset s.consensus_list s.my_proc_list) s.my_failed_list;
      }))
]

-- The qsort of memb_state_commit_token_create, by node id.
unfoldable pub insert_sorted : ℕ → List ℕ → List ℕ
insert_sorted x [] = x ∷ []
insert_sorted x (y ∷ ys) = let rest = insert_sorted x ys in if ltb y x then y ∷ rest else x ∷ y ∷ ys

unfoldable pub sort : List ℕ → List ℕ
sort [] = []
sort (x ∷ xs) = insert_sorted x (sort xs)

-- memb_state_commit_token_create, the fields that the membership decides.
unfoldable pub memb_state_commit_token_create : Instance → Instance
memb_state_commit_token_create s = record s {
  commit_token =
      some (record { rep = s.my_id; seq = s.token_ring_id_seq + 4; addrs = sort (token_memb s) });
}

-- memb_state_commit_enter: the ring id and the state; timers and flow control are left out.
unfoldable pub memb_state_commit_enter : Instance → Instance
memb_state_commit_enter s = elim s.commit_token [
  | none ↦ record s { memb_state = commit }
  | some token ↦ record s {
    my_ring_rep = token.rep;
    my_ring_seq = token.seq;
    token_ring_id_seq = token.seq;
    memb_state = commit;
  }
]

unfoldable pub last : List ℕ → Option ℕ
last [] = none
last (x ∷ []) = some x
last (x ∷ y ∷ ys) = last (y ∷ ys)

abbrev pub is_operational : MembState → Bool
is_operational operational = true
is_operational _ = false

-- The leave part of memb_join_process.
unfoldable pub note_leave : Instance → MembJoin → Instance
note_leave s m =
    if m.is_join && m.header_nodeid == leave_dummy_nodeid
    then elim (last m.failed_list) [ none ↦ s | some nodeid ↦ my_leave_memb_set s nodeid ]
    else s

-- The end of memb_join_process, at `out`.
unfoldable pub join_out : Instance → Instance
join_out s = if is_operational s.memb_state then memb_state_gather_enter s else s

-- The ring of this node alone, when both sides agree that it does not receive.
unfoldable pub single_ring : Instance → Instance
single_ring s = memb_state_commit_enter (
    memb_state_commit_token_create
      (record s { failed_to_recv = false; my_proc_list = s.my_id ∷ []; my_failed_list = [] }))

-- The first branch of memb_join_process: both lists are ours.
unfoldable pub join_same : Instance → Option Instance
join_same s = elim (memb_consensus_agreed s) [
  | none ↦ none
  | some agreed ↦
      if agreed && s.failed_to_recv
      then some (single_ring s)
      else if agreed
      then elim (memb_lowest_in_config s) [
        | none ↦ none
        | some lowest ↦ some (
            if lowest
            then memb_state_commit_enter (memb_state_commit_token_create s)
            else join_out s)
      ]
      else some (join_out s)
]

-- The failed list that the last branch of memb_join_process leaves.
unfoldable pub join_failed : Instance → MembJoin → List ℕ
join_failed s m =
    if memb_set_subset (s.my_id ∷ []) m.failed_list
    then memb_set_merge (m.system_from ∷ []) s.my_failed_list
    else if memb_set_subset (m.system_from ∷ []) s.my_memb_list
    then (if not (memb_set_subset (m.system_from ∷ []) s.my_failed_list)
        then memb_set_merge m.failed_list s.my_failed_list
        else memb_set_merge (memb_set_subtract m.failed_list s.my_memb_list) s.my_failed_list)
    else s.my_failed_list

unfoldable pub join_merge : Instance → MembJoin → Instance
join_merge s m = memb_state_gather_enter (record s {
  my_proc_list = memb_set_merge m.proc_list s.my_proc_list;
  my_failed_list = join_failed s m;
})

-- The four branches of memb_join_process.
unfoldable pub join_views : Instance → MembJoin → Option Instance
join_views s m =
    if memb_set_equal m.proc_list s.my_proc_list && memb_set_equal m.failed_list s.my_failed_list
    then join_same
        (if m.header_nodeid == leave_dummy_nodeid then s else memb_consensus_set s m.system_from)
    else if memb_set_subset m.proc_list s.my_proc_list
        && memb_set_subset m.failed_list s.my_failed_list
    then some (join_out s)
    else if memb_set_subset (m.system_from ∷ []) s.my_failed_list
    then some (join_out s)
    else some (join_merge s m)

-- memb_join_process: `none` is a failed assertion.
unfoldable pub memb_join_process : Instance → MembJoin → Option Instance
memb_join_process s m =
    if m.is_join && s.flushing then some (note_leave s m) else join_views (note_leave s m) m
