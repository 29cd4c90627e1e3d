-- ===== src/Votequorum/State.antt =====
-- The static variables of exec/votequorum.c, and what it sends to the rest of the program.
use corosync.Prelude.{ℕ, Bool, List, ◌∷◌, update}

pub data NodeState : Type 0 where
  unset member dead leaving : NodeState

-- struct cluster_node without its extra_nodeinfo bytes; ids are bit patterns of an `int`.
pub record Node : Type 0 where
  pub node_id : ℕ
  pub state : NodeState
  pub votes : ℕ
  pub expected_votes : ℕ
  pub flags : ℕ
  pub ei_size : ℕ

-- NODE_FLAGS_*
abbrev pub flag_quorate : ℕ
flag_quorate = 1

abbrev pub flag_leaving : ℕ
flag_leaving = 2

abbrev pub flag_wfastatus : ℕ
flag_wfastatus = 4

abbrev pub flag_first : ℕ
flag_first = 8

abbrev pub flag_qdevice_registered : ℕ
flag_qdevice_registered = 16

abbrev pub flag_qdevice_alive : ℕ
flag_qdevice_alive = 32

abbrev pub flag_qdevice_cast_vote : ℕ
flag_qdevice_cast_vote = 64

abbrev pub flag_qdevice_master_wins : ℕ
flag_qdevice_master_wins = 128

abbrev pub flag_qdevice_extra_info_set : ℕ
flag_qdevice_extra_info_set = 256

abbrev pub qdevice_nodeid : ℕ
qdevice_nodeid = 0

-- Without HAVE_SMALL_MEMORY_FOOTPRINT.
abbrev pub processor_count_max : ℕ
processor_count_max = 384

pub data AutoTieBreaker : Type 0 where
  atb_none atb_lowest atb_highest atb_list : AutoTieBreaker

pub record RingId : Type 0 where
  pub nodeid : ℕ
  pub seq : ℕ

-- The icmap keys under runtime.votequorum.
pub data Key : Type 0 where
  lowest_node_id_key highest_node_id_key wait_for_all_status_key : Key
  ev_barrier_key ev_tracking_barrier_key qdevice_master_wins_key this_node_id_key : Key

-- VOTEQUORUM_RECONFIG_PARAM_*, and a value of `param` that is none of them.
pub data ReconfigParam : Type 0 where
  expected_votes_param node_votes_param cancel_wfa_param other_param : ReconfigParam

-- The cs_error_t of a reply.
pub data CsError : Type 0 where
  cs_ok err_access err_exist err_try_again err_invalid_param : CsError
  err_not_exist err_name_not_found err_no_resources err_message_error : CsError

-- Calls into icmap, the totem layer, the IPC layer and the timers. The last argument of
-- `quorum_callback` is whether the cluster is quorate.
pub data Output : Type 0 where
  icmap_set : Key → ℕ → Output
  quorum_callback : List ℕ → RingId → Bool → Output
  quorum_notification nodelist_notification : Output
  expectedvotes_notification : ℕ → Output
  write_ev_tracking : ℕ → Output
  mcast_nodeinfo : (nodeid votes expected_votes flags : ℕ) → Output
  mcast_reconfigure : ReconfigParam → ℕ → ℕ → Output
  mcast_qdevice_reg : Bool → List ℕ → Output
  mcast_qdevice_reconfigure : List ℕ → List ℕ → Output
  mcast_extra_info : ℕ → Output
  qdevice_reg_response : CsError → Output
  lms_timer_delete qdevice_timer_delete : Output
  lms_timer_add qdevice_timer_add : ℕ → Output

-- Pointers to a cluster_node are indices into `cluster_nodes`, so that `us` and a member of the list
-- may be one node. `uint8_t` switches are Booleans, and `qdevice_reg_conn` tells
-- whether a connection is stored.
pub record State : Type 0 where
  pub cluster_nodes : ℕ → Node
  pub cluster_nodes_entries : ℕ
  pub cluster_members_list : List ℕ
  pub us : ℕ
  pub qdevice : ℕ
  pub qdevice_name : List ℕ
  pub qdevice_timeout : ℕ
  pub qdevice_sync_timeout : ℕ
  pub qdevice_can_operate : Bool
  pub qdevice_reg_conn : Bool
  pub qdevice_master_wins : Bool
  pub two_node : Bool
  pub wait_for_all : Bool
  pub wait_for_all_status : Bool
  pub auto_tie_breaker : AutoTieBreaker
  pub lowest_node_id : ℕ
  pub highest_node_id : ℕ
  pub last_man_standing : Bool
  pub last_man_standing_window : ℕ
  pub allow_downscale : Bool
  pub ev_barrier : ℕ
  pub ev_tracking : Bool
  pub ev_tracking_barrier : ℕ
  pub quorum : ℕ
  pub cluster_is_quorate : Bool
  pub quorum_members : List ℕ
  pub previous_quorum_members : List ℕ
  pub atb_nodelist : List ℕ
  pub quorum_ringid : RingId
  pub qdevice_timer_set : Bool
  pub last_man_standing_timer_set : Bool
  pub sync_nodeinfo_sent : Bool
  pub sync_wait_for_poll_or_timeout : Bool
  pub sync_in_progress : Bool
  pub outputs : List Output

abbrev pub node : State → ℕ → Node
node s p = s.cluster_nodes p

-- What `us` points to.
abbrev pub our_node : State → Node
our_node s = s.cluster_nodes s.us

abbrev pub modify_node : State → ℕ → (Node → Node) → State
modify_node s p f = record s { cluster_nodes = update s.cluster_nodes p (f (s.cluster_nodes p)) }

abbrev pub our_flags : State → (ℕ → ℕ) → State
our_flags s f = modify_node s s.us (λ n. record n { flags = f n.flags })

abbrev pub emit : State → Output → State
emit s o = record s { outputs = o ∷ s.outputs }
