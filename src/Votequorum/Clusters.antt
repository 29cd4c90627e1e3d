-- ===== src/Votequorum/Clusters.antt =====
-- Test data: clusters of three nodes, for the theorems about exec/votequorum.c.
use corosync.Prelude.{ℕ, true, false, [], ◌∷◌, ◌==◌, if◌then◌else◌}
use corosync.Votequorum.State.{State, Node, NodeState, member, unset, atb_none}

-- Slot 0 is the quorum device, slots 1 to 3 are nodes with a vote each.
abbrev pub voter : ℕ → NodeState → Node
voter id state = record {
  node_id = id;
  state = state;
  votes = 1;
  expected_votes = 3;
  flags = 0;
  ei_size = 0;
}

-- A cluster of three nodes of which the `present` ones are members.
abbrev pub three : NodeState → NodeState → NodeState → State
three a b c = record {
  cluster_nodes = λ p.
      if p == 1
      then voter 1 a
      else if p == 2
      then voter 2 b
      else if p == 3
      then voter 3 c
      else record {
        node_id = 0;
        state = unset;
        votes = 0;
        expected_votes = 0;
        flags = 0;
        ei_size = 0;
      };
  cluster_nodes_entries = 4;
  cluster_members_list = 1 ∷ 2 ∷ 3 ∷ [];
  us = 1;
  qdevice = 0;
  qdevice_name = [];
  qdevice_timeout = 10000;
  qdevice_sync_timeout = 30000;
  qdevice_can_operate = true;
  qdevice_reg_conn = false;
  qdevice_master_wins = false;
  two_node = false;
  wait_for_all = false;
  wait_for_all_status = false;
  auto_tie_breaker = atb_none;
  lowest_node_id = 0xffff_ffff;
  highest_node_id = 0xffff_ffff;
  last_man_standing = false;
  last_man_standing_window = 10000;
  allow_downscale = false;
  ev_barrier = 0;
  ev_tracking = false;
  ev_tracking_barrier = 0;
  quorum = 2;
  cluster_is_quorate = false;
  quorum_members = 1 ∷ 2 ∷ [];
  previous_quorum_members = 1 ∷ 2 ∷ 3 ∷ [];
  atb_nodelist = [];
  quorum_ringid = record { nodeid = 1; seq = 8 };
  qdevice_timer_set = false;
  last_man_standing_timer_set = false;
  sync_nodeinfo_sent = false;
  sync_wait_for_poll_or_timeout = false;
  sync_in_progress = false;
  outputs = [];
}

abbrev pub majority : State
majority = three member member unset

abbrev pub minority : State
minority = three member unset unset
