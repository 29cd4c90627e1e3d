-- ===== src/Votequorum/Nodes/Examples.antt =====
-- The node list of exec/votequorum.c at concrete nodes.
use corosync.Prelude.{ℕ, refl, [], ◌∷◌}
use corosync.Votequorum.State.{Node, member}
use corosync.Votequorum.Clusters.{voter}
use corosync.Votequorum.Nodes.{node_add_ordered}
use corosync.Votequorum.Nodes.Order.{IsAscending, node_add_ordered-unordered}

-- The node in slot p has id p.
abbrev numbered : ℕ → Node
numbered p = voter p member

node_add_ordered-unordered_example :
    ¬ IsAscending numbered (node_add_ordered numbered 3 (1 ∷ 2 ∷ []))
node_add_ordered-unordered_example =
    node_add_ordered-unordered numbered 3 1 (2 ∷ []) (refl, (refl, tt))
