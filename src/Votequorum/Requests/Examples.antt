-- ===== src/Votequorum/Requests/Examples.antt =====
-- The requests of exec/votequorum.c at a concrete cluster.
use corosync.Prelude.{ℕ, ◌≡◌, refl, true, false, [], has_flag, ◌==◌, if◌then◌else◌}
use corosync.Votequorum.State.{
  State, our_node, err_invalid_param, cs_ok, flag_qdevice_alive, flag_qdevice_cast_vote, member,
}
use corosync.Votequorum.Clusters.{majority, voter}
use corosync.Votequorum.Nodes.{find_node_by_nodeid, find_member}
use corosync.Votequorum.Quorum.{
  calculate_quorum, cluster_tally, tally, tally_node, counted_expected,
}
use corosync.Votequorum.Requests.{setvotes}
use corosync.Votequorum.Requests.Checks.{setvotes_rollback}
use corosync.Votequorum.Requests.Device.{qdevice_poll}
use corosync.Votequorum.Requests.Device.Poll.{qdevice_poll_accepts}

-- No votes for node 2 would leave one vote of the two that the quorum needs.
refused : (setvotes majority 2 0 true).1 ≡ err_invalid_param
unfolding setvotes find_node_by_nodeid find_member calculate_quorum cluster_tally tally tally_node
    counted_expected
refused = refl

setvotes_rollback_example : ((setvotes majority 2 0 true).0.cluster_nodes 2).votes ≡ 1
setvotes_rollback_example = setvotes_rollback majority 2 0 true 2 refused

-- Our node with a registered device of no name.
abbrev registered : State
registered = record majority {
  cluster_nodes =
      λ p. if p == 1 then record (voter 1 member) { flags = 16 } else majority.cluster_nodes p;
}

poll_taken : (qdevice_poll registered [] (record { nodeid = 1; seq = 8 }) true).1 ≡ cs_ok
unfolding qdevice_poll
poll_taken = refl

qdevice_poll_accepts_example :
    let t = (qdevice_poll registered [] (record { nodeid = 1; seq = 8 }) true).0 in
    (◌≡◌ {A = ℕ} 1 1)
    × (◌≡◌ {A = ℕ} 8 8)
    × (has_flag flag_qdevice_alive (our_node t).flags ≡ true)
    × (has_flag flag_qdevice_cast_vote (our_node t).flags ≡ true)
    × (t.sync_wait_for_poll_or_timeout ≡ false)
qdevice_poll_accepts_example =
    qdevice_poll_accepts registered [] (record { nodeid = 1; seq = 8 }) true poll_taken
