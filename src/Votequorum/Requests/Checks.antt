-- ===== src/Votequorum/Requests/Checks.antt =====
-- What the requests of exec/votequorum.c refuse.
use corosync.Prelude.{ℕ, ◌≡◌, Bool, arith}
use corosync.Votequorum.State.{State, err_invalid_param}
use corosync.Votequorum.Requests.{setvotes}

-- After CS_ERR_INVALID_PARAM from setvotes every node has the votes that it had.
pub setvotes_rollback :
    (s : State) (nodeid votes : ℕ) (mcast_ok : Bool) (p : ℕ)
    → (setvotes s nodeid votes mcast_ok).1 ≡ err_invalid_param
    → ((setvotes s nodeid votes mcast_ok).0.cluster_nodes p).votes ≡ (s.cluster_nodes p).votes
unfolding setvotes
setvotes_rollback s nodeid votes mcast_ok p e = ground arith
