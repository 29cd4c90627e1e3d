-- ===== src/Votequorum/Messages/Waiting.antt =====
-- The message handlers of exec/votequorum.c, and the assertion of are_we_quorate.
use corosync.Prelude.{
  ℕ, ◌+◌, ◌≤◌, ◌≡◌, ◌⊎◌, refl, sym, subst, umax, Bool, true, false, none, some, inl, inr, arith,
  ◌==◌, if◌then◌else◌, le→leb, ==→eq, Bool-cases, Option-cases, ◌||◌, has_flag,
}
use corosync.Votequorum.State.{
  State, our_node, ReconfigParam, expected_votes_param, node_votes_param, cancel_wfa_param,
  other_param, modify_node, emit, expectedvotes_notification, processor_count_max, qdevice_nodeid,
  flag_leaving,
}
use corosync.Votequorum.Nodes.{find_node_by_nodeid, allocate_node, place_node}
use corosync.Votequorum.Quorum.{
  update_wait_for_all_status, update_node_expected_votes, update_ev_barrier,
}
use corosync.Votequorum.Quorum.Waiting.{
  WaitsInquorate, SameWait, SameWait-WaitsInquorate, Safely, recalculate_quorum-Safely,
}
use corosync.Votequorum.Messages.{
  Nodeinfo, Located, unknown_node, locate, store_qdevice, set_qdevice_votes, store_member,
  check_last_man_standing, needs_recalculation, stop_waiting, after_nodeinfo, nodeinfo_handler,
  reconfigure_handler, joins_quorate,
}

-- A full table is not reached.
abbrev pub HasRoom : State → Type 0
HasRoom s = s.cluster_nodes_entries ≤ processor_count_max + 1

abbrev placed : State → ℕ → State
placed s nodeid =
    place_node (record s { cluster_nodes_entries = s.cluster_nodes_entries + 1 })
      s.cluster_nodes_entries nodeid

located_new : State → ℕ → Located
located_new s nodeid = record {
  after = placed s nodeid;
  slot = s.cluster_nodes_entries;
  new_node = true;
  old = unknown_node;
}

located_known : State → ℕ → Located
located_known s p = record { after = s; slot = p; new_node = false; old = s.cluster_nodes p }

locate_new :
    (s : State) (nodeid : ℕ)
    → HasRoom s
    → find_node_by_nodeid s nodeid ≡ none
    → locate s nodeid ≡ some (located_new s nodeid)
unfolding locate allocate_node located_new
locate_new s nodeid room e = rw (e, locate, le→leb _ _ room)

locate_known :
    (s : State) (nodeid p : ℕ)
    → find_node_by_nodeid s nodeid ≡ some p
    → locate s nodeid ≡ some (located_known s p)
unfolding locate located_known
locate_known s nodeid p e = rw (e, locate)

-- With room in the table the node of a message is found or allocated.
locate_total :
    (s : State) (nodeid : ℕ)
    → HasRoom s
    → (l : Located) × (locate s nodeid ≡ some l) × SameWait s l.after
unfolding located_new located_known place_node
locate_total s nodeid room = elim (Option-cases (find_node_by_nodeid s nodeid)) [
  | inl e ↦ (located_new s nodeid, locate_new s nodeid room e, (refl, refl, refl))
  | inr (p, e) ↦ (located_known s p, locate_known s nodeid p e, (refl, refl, refl))
]

stop_waiting-WaitsInquorate :
    (s : State) (p : ℕ) → WaitsInquorate s → WaitsInquorate (stop_waiting s p)
unfolding stop_waiting update_wait_for_all_status
stop_waiting-WaitsInquorate s p h w e = ground (arith, h)

after_nodeinfo-Safely :
    (s : State) (l : Located) (nodeid : ℕ) (allow_downgrade by_node : Bool)
    → WaitsInquorate s
    → Safely (after_nodeinfo s l nodeid allow_downgrade by_node)
unfolding after_nodeinfo
after_nodeinfo-Safely s l nodeid allow by h = elim (Bool-cases (needs_recalculation s l nodeid)) [
  | inl yes' ↦
      (let (t, e, k) = recalculate_quorum-Safely s allow by h in
        (stop_waiting t l.slot, rw (yes', e), stop_waiting-WaitsInquorate t l.slot k))
  | inr no' ↦ (stop_waiting s l.slot, rw no', stop_waiting-WaitsInquorate s l.slot h)
]

SameWait-store_member :
    (s : State) (p : ℕ) (msg : Nodeinfo)
    → SameWait s (check_last_man_standing (store_member s p msg) p)
unfolding store_member check_last_man_standing
SameWait-store_member s p msg = ground arith

find_qdevice : (s : State) → (p : ℕ) × (find_node_by_nodeid s qdevice_nodeid ≡ some p)
unfolding find_node_by_nodeid
find_qdevice s = elim (Bool-cases (qdevice_nodeid == (our_node s).node_id)) [
  | inl e ↦ (s.us, rw e)
  | inr e ↦ (s.qdevice, rw e)
]

SameWait-set_qdevice_votes :
    (s : State) (p q : ℕ) (msg : Nodeinfo) → SameWait s (set_qdevice_votes s p q msg)
unfolding set_qdevice_votes
SameWait-set_qdevice_votes s p q msg = ground arith

-- The state in which the handler comes to the label `recalculate`, for a node.
abbrev stored_member : Located → Nodeinfo → State
stored_member l msg = check_last_man_standing (store_member l.after l.slot msg) l.slot

nodeinfo_handler_member :
    (s : State) (msg : Nodeinfo) (sender_nodeid : ℕ) (l : Located)
    → locate s msg.nodeid ≡ some l
    → (msg.nodeid == qdevice_nodeid) ≡ false
    → nodeinfo_handler s msg sender_nodeid
      ≡ after_nodeinfo
          (stored_member l msg)
          l
          msg.nodeid
          (has_flag flag_leaving msg.flags || joins_quorate l.after msg)
          (has_flag flag_leaving msg.flags)
unfolding nodeinfo_handler
nodeinfo_handler_member s msg sender_nodeid l found e = rw (found, nodeinfo_handler, e)

nodeinfo_handler_qdevice :
    (s : State) (msg : Nodeinfo) (sender_nodeid p q : ℕ)
    → locate s msg.nodeid ≡ some (located_known s p)
    → find_node_by_nodeid s sender_nodeid ≡ some q
    → (msg.nodeid == qdevice_nodeid) ≡ true
    → nodeinfo_handler s msg sender_nodeid
      ≡ after_nodeinfo (set_qdevice_votes s p q msg) (located_known s p) msg.nodeid false false
unfolding nodeinfo_handler store_qdevice located_known
nodeinfo_handler_qdevice s msg sender_nodeid p q found known e =
    rw (found, nodeinfo_handler, e, known, store_qdevice)

qdevice_message-Safely :
    (s : State) (msg : Nodeinfo) (sender_nodeid q : ℕ)
    → WaitsInquorate s
    → find_node_by_nodeid s sender_nodeid ≡ some q
    → (msg.nodeid == qdevice_nodeid) ≡ true
    → Safely (nodeinfo_handler s msg sender_nodeid)
qdevice_message-Safely s msg sender_nodeid q h known e =
    let (p, found) = find_qdevice s in
    let here : locate s msg.nodeid ≡ some (located_known s p) =
      rw (==→eq _ _ e) (locate_known s qdevice_nodeid p found) in
    subst Safely (sym (nodeinfo_handler_qdevice s msg sender_nodeid p q here known e)) (
      after_nodeinfo-Safely (set_qdevice_votes s p q msg) (located_known s p) msg.nodeid false false
        (SameWait-WaitsInquorate s (set_qdevice_votes s p q msg)
          (SameWait-set_qdevice_votes s p q msg) h))

-- A nodeinfo message about the quorum device comes from a node that is known.
abbrev pub IsKnown : State → Nodeinfo → ℕ → Type 0
IsKnown s msg sender_nodeid =
    ((msg.nodeid == qdevice_nodeid) ≡ false)
    ⊎ ((q : ℕ) × (find_node_by_nodeid s sender_nodeid ≡ some q))

-- A nodeinfo message, with room in the table, fails no assertion, and keeps a node that waits for all others from being
-- quorate.
pub nodeinfo_handler-Safely :
    (s : State) (msg : Nodeinfo) (sender_nodeid : ℕ)
    → WaitsInquorate s
    → HasRoom s
    → IsKnown s msg sender_nodeid
    → Safely (nodeinfo_handler s msg sender_nodeid)
nodeinfo_handler-Safely s msg sender_nodeid h room known =
    elim (Bool-cases (msg.nodeid == qdevice_nodeid)) [
      | inl e ↦ elim known [
        | inl other ↦ absurd (cc)
        | inr (q, known) ↦ qdevice_message-Safely s msg sender_nodeid q h known e
      ]
      | inr e ↦
          (let (l, found, same) = locate_total s msg.nodeid room in
            subst Safely (sym (nodeinfo_handler_member s msg sender_nodeid l found e)) (
              after_nodeinfo-Safely (stored_member l msg) l msg.nodeid
                (has_flag flag_leaving msg.flags || joins_quorate l.after msg)
                (has_flag flag_leaving msg.flags)
                (SameWait-WaitsInquorate l.after (stored_member l msg)
                  (SameWait-store_member l.after l.slot msg)
                  (SameWait-WaitsInquorate s l.after same h))))
    ]

reconfigured : State → ℕ → State
reconfigured s value =
    let t = update_node_expected_votes s value in
    let u =
      update_ev_barrier (emit t (expectedvotes_notification (our_node t).expected_votes)) value in
    if u.ev_tracking
    then modify_node u u.us
        (λ n. record n { expected_votes = umax n.expected_votes u.ev_tracking_barrier })
    else u

SameWait-reconfigured : (s : State) (value : ℕ) → SameWait s (reconfigured s value)
unfolding reconfigured update_node_expected_votes update_ev_barrier
SameWait-reconfigured s value = ground arith

cancelled-WaitsInquorate : (s : State) → WaitsInquorate (update_wait_for_all_status s false)
unfolding update_wait_for_all_status
cancelled-WaitsInquorate s w p = ground arith

votes_set-Safely :
    (s : State) (nodeid value : ℕ)
    → WaitsInquorate s
    → Safely (reconfigure_handler s node_votes_param nodeid value)
unfolding reconfigure_handler
votes_set-Safely s nodeid value h = elim (Option-cases (find_node_by_nodeid s nodeid)) [
  | inl e ↦ (s, rw (e, reconfigure_handler), h)
  | inr (p, e) ↦
      (let t = modify_node s p (λ n. record n { votes = value }) in
        let (u, r, k) =
          recalculate_quorum-Safely t true false
            (SameWait-WaitsInquorate s t (refl, refl, refl) h) in
        (u, rw (e, reconfigure_handler) r, k))
]

-- A reconfigure message fails no assertion either, whatever it changes.
pub reconfigure_handler-Safely :
    (s : State) (param : ReconfigParam) (nodeid value : ℕ)
    → WaitsInquorate s
    → Safely (reconfigure_handler s param nodeid value)
unfolding reconfigure_handler reconfigured
reconfigure_handler-Safely s expected_votes_param nodeid value h =
    recalculate_quorum-Safely (reconfigured s value) true false
      (SameWait-WaitsInquorate s (reconfigured s value) (SameWait-reconfigured s value) h)
reconfigure_handler-Safely s node_votes_param nodeid value h = votes_set-Safely s nodeid value h
reconfigure_handler-Safely s cancel_wfa_param nodeid value h =
    recalculate_quorum-Safely (update_wait_for_all_status s false) false false
      (cancelled-WaitsInquorate s)
reconfigure_handler-Safely s other_param nodeid value h = (s, refl, h)
