-- ===== src/Totemsrp/Membership/Join.antt =====
-- The node's own entry in its lists, in memb_join_process of exec/totemsrp.c.
use corosync.Prelude.{
  ℕ, suc, ◌++◌, ltb, length, Option-cases, ◌≡◌, refl, Bool, true, false, ◌&&◌, Option, some, List,
  [], ◌∷◌, ◌==◌, if◌then◌else◌, arith, inl, inr, Bool-cases,
}
use corosync.Totemsrp.Sets.{contains, memb_set_equal, memb_set_subset, memb_set_subtract}
use corosync.Totemsrp.Sets.Contents.{contains-memb_set_subtract, contains-memb_set_merge}
use corosync.Totemsrp.Membership.{
  Instance, MembJoin, is_operational, leave_dummy_nodeid, memb_consensus_set, memb_consensus_agreed,
  memb_lowest_in_config, memb_state_commit_token_create, memb_state_commit_enter,
  processor_count_max, my_leave_memb_set, note_leave, last, join_out, single_ring, join_same,
  join_failed, join_merge, join_views, memb_join_process,
}
use corosync.Totemsrp.Membership.Own.{
  OwnIsValid, consensus_find-store, memb_set_subset_one, memb_consensus_agreed_total,
  memb_lowest_in_config_total, memb_state_gather_enter-OwnIsValid,
}

-- The code goes on without a failed assertion, to a node that is valid in itself.
abbrev pub Succeeds : Option Instance → Type 0
Succeeds o = (t : Instance) × (o ≡ some t) × OwnIsValid t

join_out-OwnIsValid : (s : Instance) → OwnIsValid s → OwnIsValid (join_out s)
unfolding join_out
join_out-OwnIsValid s v = elim (Bool-cases (is_operational s.memb_state)) [
  | inl h ↦ rw h (memb_state_gather_enter-OwnIsValid s v.alive)
  | inr h ↦ rw h v
]

commit-OwnIsValid :
    (s : Instance)
    → OwnIsValid s
    → OwnIsValid (memb_state_commit_enter (memb_state_commit_token_create s))
unfolding memb_state_commit_enter memb_state_commit_token_create
commit-OwnIsValid s v = record { in_proc = v.in_proc; alive = v.alive; voted = refl }

single_ring-OwnIsValid : (s : Instance) → OwnIsValid (single_ring s)
unfolding single_ring memb_state_commit_enter memb_state_commit_token_create contains
single_ring-OwnIsValid s = record { in_proc = ground arith; alive = refl; voted = refl }

represent :
    (s : Instance) (lowest : Bool)
    → OwnIsValid s
    → OwnIsValid
        (if lowest then memb_state_commit_enter (memb_state_commit_token_create s) else join_out s)
represent s true v = commit-OwnIsValid s v
represent s false v = join_out-OwnIsValid s v

join_same-Succeeds : (s : Instance) → OwnIsValid s → Succeeds (join_same s)
unfolding join_same
join_same-Succeeds s v = agreeing (memb_consensus_agreed_total s v)
  where
    choosing :
        memb_consensus_agreed s ≡ some true
        → s.failed_to_recv ≡ false
        → (lowest : Bool) × (memb_lowest_in_config s ≡ some lowest)
        → Succeeds (join_same s)
    choosing e f (lowest, q) = (
      (if lowest then memb_state_commit_enter (memb_state_commit_token_create s) else join_out s),
      rw (join_same, e, q, f) refl,
      represent s lowest v,
    )

    agreeing : (agreed : Bool) × (memb_consensus_agreed s ≡ some agreed) → Succeeds (join_same s)
    agreeing (false, e) = (join_out s, rw (join_same, e) refl, join_out-OwnIsValid s v)
    agreeing (true, e) = elim (Bool-cases s.failed_to_recv) [
      | inl f ↦ (single_ring s, rw (join_same, e, f) refl, single_ring-OwnIsValid s)
      | inr f ↦ choosing e f (memb_lowest_in_config_total s v f)
    ]

-- The failed list after a join message has the node only if it was there.
contains-join_failed :
    (s : Instance) (m : MembJoin)
    → contains s.my_id m.failed_list && s.my_id == m.system_from ≡ false
    → contains s.my_id s.my_failed_list ≡ false
    → contains s.my_id (join_failed s m) ≡ false
unfolding join_failed contains
contains-join_failed s m h f = ground (
  arith,
  memb_set_subset_one s.my_id m.failed_list,
  contains-memb_set_merge s.my_id (m.system_from ∷ []) s.my_failed_list,
  contains-memb_set_merge s.my_id m.failed_list s.my_failed_list,
  contains-memb_set_merge s.my_id (memb_set_subtract m.failed_list s.my_memb_list) s.my_failed_list,
  contains-memb_set_subtract s.my_id m.failed_list s.my_memb_list,
)

join_merge-OwnIsValid :
    (s : Instance) (m : MembJoin)
    → contains s.my_id m.failed_list && s.my_id == m.system_from ≡ false
    → OwnIsValid s
    → OwnIsValid (join_merge s m)
unfolding join_merge
join_merge-OwnIsValid s m h v =
    memb_state_gather_enter-OwnIsValid _ (ground (arith, v.alive, contains-join_failed s m h))

set-OwnIsValid : (s : Instance) (addr : ℕ) → OwnIsValid s → OwnIsValid (memb_consensus_set s addr)
unfolding memb_consensus_set
set-OwnIsValid s addr v = record {
  in_proc = v.in_proc;
  alive = v.alive;
  voted = ground (arith, v.voted, consensus_find-store s.consensus_list addr s.my_id);
}

voting :
    (s : Instance) (m : MembJoin)
    → OwnIsValid s
    → OwnIsValid
        (if m.header_nodeid == leave_dummy_nodeid then s else memb_consensus_set s m.system_from)
voting s m v = elim (Bool-cases (m.header_nodeid == leave_dummy_nodeid)) [
  | inl e ↦ rw e v
  | inr e ↦ rw e (set-OwnIsValid s m.system_from v)
]

join_views-Succeeds :
    (s : Instance) (m : MembJoin)
    → contains s.my_id m.failed_list && s.my_id == m.system_from ≡ false
    → OwnIsValid s
    → Succeeds (join_views s m)
unfolding join_views
join_views-Succeeds s m h v =
    elim (Bool-cases (
      memb_set_equal m.proc_list s.my_proc_list && memb_set_equal m.failed_list s.my_failed_list)) [
        | inl a ↦ rw a (join_same-Succeeds _ (voting s m v))
        | inr a ↦
            rw a
              (elim (Bool-cases (
                memb_set_subset m.proc_list s.my_proc_list
                && memb_set_subset m.failed_list s.my_failed_list)) [
                  | inl b ↦ rw b (join_out s, refl, join_out-OwnIsValid s v)
                  | inr b ↦
                      rw b
                        (elim (Bool-cases (memb_set_subset (m.system_from ∷ []) s.my_failed_list)) [
                          | inl c ↦ rw c (join_out s, refl, join_out-OwnIsValid s v)
                          | inr c ↦ rw c (join_merge s m, refl, join_merge-OwnIsValid s m h v)
                        ])
                ])
      ]

-- The node with another list of leaving nodes.
abbrev leaving : Instance → List ℕ → Instance
leaving s nodes = record s { my_leave_memb_list = nodes }

leaving-OwnIsValid : (s : Instance) (nodes : List ℕ) → OwnIsValid s → OwnIsValid (leaving s nodes)
leaving-OwnIsValid s nodes v = record { in_proc = v.in_proc; alive = v.alive; voted = v.voted }

my_leave_memb_set_lem :
    (s : Instance) (nodeid : ℕ) → (nodes : List ℕ) × (my_leave_memb_set s nodeid ≡ leaving s nodes)
unfolding my_leave_memb_set
my_leave_memb_set_lem s nodeid = elim (Bool-cases (contains nodeid s.my_leave_memb_list)) [
  | inl a ↦ (s.my_leave_memb_list, rw a refl)
  | inr a ↦ elim (Bool-cases (ltb (suc (length s.my_leave_memb_list)) processor_count_max)) [
    | inl b ↦ (s.my_leave_memb_list ++ nodeid ∷ [], rw (a, b) refl)
    | inr b ↦ (s.my_leave_memb_list, rw (a, b) refl)
  ]
]

note_leave_lem :
    (s : Instance) (m : MembJoin) → (nodes : List ℕ) × (note_leave s m ≡ leaving s nodes)
unfolding note_leave
note_leave_lem s m = elim (Bool-cases (m.is_join && m.header_nodeid == leave_dummy_nodeid)) [
  | inr a ↦ (s.my_leave_memb_list, rw a refl)
  | inl a ↦ elim (Option-cases (last m.failed_list)) [
    | inl b ↦ (s.my_leave_memb_list, rw (a, b) refl)
    | inr (nodeid, b) ↦ (let (nodes, e) = my_leave_memb_set_lem s nodeid in (nodes, rw (a, b) e))
  ]
]

-- At a node that is valid in itself a join message, unless it comes from the node and has it in the failed
-- list, fails no assertion of memb_join_process and leaves the node valid in itself.
pub memb_join_process-OwnIsValid :
    (s : Instance) (m : MembJoin)
    → contains s.my_id m.failed_list && s.my_id == m.system_from ≡ false
    → OwnIsValid s
    → (t : Instance) × (memb_join_process s m ≡ some t) × OwnIsValid t
unfolding memb_join_process
memb_join_process-OwnIsValid s m h v =
    let (nodes, e) = note_leave_lem s m in
    elim (Bool-cases (m.is_join && s.flushing)) [
      | inl a ↦ (leaving s nodes, rw (a, e) refl, leaving-OwnIsValid s nodes v)
      | inr a ↦ rw (a, e) (join_views-Succeeds (leaving s nodes) m h (leaving-OwnIsValid s nodes v))
    ]
