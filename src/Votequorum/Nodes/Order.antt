-- ===== src/Votequorum/Nodes/Order.antt =====
-- Where node_add_ordered of exec/votequorum.c puts a node.
use mathlib.Core.List.{Perm}
use mathlib.Core.List.Perm
use corosync.Prelude.{ℕ, ◌≡◌, true, List, [], ◌∷◌, inl, inr, arith, Bool-cases, slt32}
use corosync.Votequorum.State.{Node}
use corosync.Votequorum.Nodes.{node_add_ordered}

module _ (nodes : ℕ → Node) where
  -- The first id is less than the second, as int.
  abbrev pub IdLt : ℕ → ℕ → Type 0
  IdLt p q = slt32 (nodes p).node_id (nodes q).node_id ≡ true

  abbrev pub AllBelow : ℕ → List ℕ → Type 0
  AllBelow new [] = Unit {0}
  AllBelow new (p ∷ rest) = IdLt p new × AllBelow new rest

  abbrev pub AllAbove : ℕ → List ℕ → Type 0
  AllAbove p [] = Unit {0}
  AllAbove p (q ∷ rest) = IdLt p q × AllAbove p rest

  -- The ids ascend along the list.
  abbrev pub IsAscending : List ℕ → Type 0
  IsAscending [] = Unit {0}
  IsAscending (p ∷ rest) = AllAbove p rest × IsAscending rest

  -- node_add_ordered adds the node once and keeps all others.
  pub node_add_ordered-perm :
      (new : ℕ) (ps : List ℕ) → Perm (node_add_ordered nodes new ps) (new ∷ ps)
  unfolding node_add_ordered
  node_add_ordered-perm new [] = Perm.refl _
  node_add_ordered-perm new (p ∷ []) = Perm.refl _
  node_add_ordered-perm new (p ∷ q ∷ rest) =
      elim (Bool-cases (slt32 (nodes new).node_id (nodes p).node_id)) [
        | inl e ↦ rw e (Perm.refl _)
        | inr e ↦ rw e (
            Perm.trans (Perm.cons p (node_add_ordered-perm new (q ∷ rest)))
              (Perm.swap new p (q ∷ rest)))
      ]

  -- A node whose id is above all others in the list makes a list whose ids do not ascend, although
  -- the function is to keep the list in order.
  pub node_add_ordered-unordered :
      (new p : ℕ) (ps : List ℕ)
      → AllBelow new (p ∷ ps)
      → ¬ IsAscending (node_add_ordered nodes new (p ∷ ps))
  unfolding node_add_ordered
  node_add_ordered-unordered new p [] below up = ground arith
  node_add_ordered-unordered new p (q ∷ rest) below up =
      ground (arith, node_add_ordered-unordered new q rest below.1)
