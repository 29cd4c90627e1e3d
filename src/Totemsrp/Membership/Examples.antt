-- ===== src/Totemsrp/Membership/Examples.antt =====
-- The membership algorithm of exec/totemsrp.c at concrete nodes.
use corosync.Prelude.{◌≤◌, ◌≡◌, refl, true, false, none, some, [], ◌∷◌}
use corosync.Totemsrp.Sets.{contains, all_contained, memb_set_equal, memb_set_subtract}
use corosync.Totemsrp.Sets.Contents.{is_unique}
use corosync.Totemsrp.Membership.{
  Instance, MembJoin, gather, consensus_find, all_set, lowest_from, memb_consensus_agreed,
  memb_lowest_in_config, memb_state_gather_enter,
}
use corosync.Totemsrp.Membership.Own.{OwnIsValid}
use corosync.Totemsrp.Membership.Events.{
  join, receive_failure, fail_to_receive, step, is_admissible, Reach, here, next, Reach-Succeeds,
}
use corosync.Totemsrp.Membership.Agreement.{memb_lowest_in_config_lem, representative_unique}

-- Node 1 of three gathers, node 3 has failed, and node 2 has sent its consensus.
abbrev gathering : Instance
gathering = record {
  my_id = 1;
  failed_to_recv = false;
  flushing = false;
  memb_state = gather;
  consensus_list = record { addr = 1; set = true } ∷ record { addr = 2; set = true } ∷ [];
  my_proc_list = 1 ∷ 2 ∷ 3 ∷ [];
  my_failed_list = 3 ∷ [];
  my_memb_list = 1 ∷ 2 ∷ 3 ∷ [];
  my_leave_memb_list = [];
  orf_token_discard = true;
  originated_orf_token = false;
  my_ring_rep = 1;
  my_ring_seq = 8;
  token_ring_id_seq = 8;
  commit_token = none;
  join_messages_sent = [];
}

-- Node 2 says that node 3 and a node 4 have failed.
abbrev joining : MembJoin
joining = record {
  is_join = true;
  header_nodeid = 2;
  system_from = 2;
  proc_list = 1 ∷ 2 ∷ 3 ∷ 4 ∷ [];
  failed_list = 3 ∷ 4 ∷ [];
}

gathering-OwnIsValid : OwnIsValid gathering
unfolding contains consensus_find
gathering-OwnIsValid = record { in_proc = refl; alive = refl; voted = refl }

agreed : memb_consensus_agreed gathering ≡ some true
unfolding memb_consensus_agreed all_set consensus_find memb_set_subtract contains
agreed = refl

lowest : memb_lowest_in_config gathering ≡ some true
unfolding memb_lowest_in_config lowest_from memb_set_subtract contains
lowest = refl

two_known : contains 2 gathering.my_proc_list ≡ true
unfolding contains
two_known = refl

two_alive : contains 2 gathering.my_failed_list ≡ false
unfolding contains
two_alive = refl

memb_lowest_in_config_lem_example : 1 ≤ 2
memb_lowest_in_config_lem_example = memb_lowest_in_config_lem gathering 2 lowest two_known two_alive

representative_unique_example : gathering.my_id ≡ gathering.my_id
unfolding contains is_unique memb_set_equal all_contained
representative_unique_example =
    representative_unique gathering gathering refl refl refl refl refl refl refl refl lowest lowest

-- The token tells node 1 that it receives nothing, and then the join message comes.
abbrev failing : Instance
failing = fail_to_receive gathering

failing-Reach : Reach gathering failing
unfolding step is_admissible
failing-Reach = next here receive_failure refl refl

Reach-Succeeds_example :
    OwnIsValid failing × ((u : Instance) × (step failing (join joining) ≡ some u))
unfolding is_admissible contains fail_to_receive memb_state_gather_enter
Reach-Succeeds_example =
    Reach-Succeeds gathering failing (join joining) gathering-OwnIsValid failing-Reach refl
