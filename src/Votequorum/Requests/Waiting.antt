-- ===== src/Votequorum/Requests/Waiting.antt =====
-- The requests of local clients of exec/votequorum.c, and wait_for_all.
use corosync.Prelude.{ℕ, Bool, arith}
use corosync.Votequorum.State.{State}
use corosync.Votequorum.Quorum.{update_node_expected_votes}
use corosync.Votequorum.Quorum.Waiting.{SameWait}
use corosync.Votequorum.Requests.{setexpected, setvotes}

pub SameWait-setexpected :
    (s : State) (expected_votes : ℕ) (mcast_ok : Bool)
    → SameWait s (setexpected s expected_votes mcast_ok).0
unfolding setexpected update_node_expected_votes
SameWait-setexpected s expected_votes mcast_ok = ground arith

pub SameWait-setvotes :
    (s : State) (nodeid votes : ℕ) (mcast_ok : Bool)
    → SameWait s (setvotes s nodeid votes mcast_ok).0
unfolding setvotes
SameWait-setvotes s nodeid votes mcast_ok = ground arith
