-- ===== src/Votequorum/Service/Examples.antt =====
-- The service of exec/votequorum.c at a concrete node.
use corosync.Prelude.{◌≡◌, refl, true, some, [], ◌∷◌}
use corosync.Votequorum.State.{State}
use corosync.Votequorum.Clusters.{majority}
use corosync.Votequorum.Quorum.Waiting.{WaitsInquorate}
use corosync.Votequorum.Service.{step, Reach, here, next, Reach-Safely, sync_inits, sync_activates}
use corosync.Votequorum.Sync.{sync_init}

-- A cluster that waits for its third node.
abbrev waiting : State
waiting = record majority { wait_for_all = true; wait_for_all_status = true }

abbrev synced : State
synced = sync_init waiting (1 ∷ 2 ∷ []) (record { nodeid = 1; seq = 12 })

synced-Reach : Reach waiting synced
unfolding step
synced-Reach = next here (sync_inits (1 ∷ 2 ∷ []) (record { nodeid = 1; seq = 12 })) tt refl

Reach-Safely_example : WaitsInquorate synced × ((u : State) × (step synced sync_activates ≡ some u))
Reach-Safely_example = Reach-Safely waiting synced sync_activates (λ _ _. refl) synced-Reach tt
