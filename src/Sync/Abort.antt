-- ===== src/Sync/Abort.antt =====
-- What comes after sync_abort of exec/sync.c.
use corosync.Prelude.{ℕ, ◌<◌, ◌≡◌, refl, Bool, false, some, List, arith}
use corosync.Sync.{
  Sync, RingId, same_ring, sync_barrier_handler, sync_service_build_handler, sync_abort,
}

aborted_ring :
    (is_known : ℕ → Bool) (s : Sync) (ring : RingId)
    → 0 < ring.seq
    → same_ring (sync_abort is_known s).my_ring_id ring ≡ false
unfolding sync_abort
aborted_ring is_known s ring h = ground arith

-- After sync_abort, the messages of the ring that is given up, and of any other ring with a sequence number
-- above 0, change nothing, until the next sync_start.
pub sync_abort_ignores :
    (is_known : ℕ → Bool) (s : Sync) (nodeid : ℕ) (ring : RingId) (service_list : List ℕ)
    → 0 < ring.seq
    → (sync_barrier_handler is_known (sync_abort is_known s) nodeid ring
        ≡ some (sync_abort is_known s))
      × (sync_service_build_handler (sync_abort is_known s) nodeid ring service_list
          ≡ sync_abort is_known s)
unfolding sync_barrier_handler sync_service_build_handler
sync_abort_ignores is_known s nodeid ring service_list h =
    (rw (aborted_ring is_known s ring h) refl, rw (aborted_ring is_known s ring h) refl)
