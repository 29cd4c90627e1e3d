-- ===== src/Totemsrp/Node/Order.antt =====
-- The order in which the nodes of exec/totemsrp.c deliver the messages of a ring.
use corosync.Prelude.{
  ℕ, zero, suc, ◌+◌, ◌-◌, ◌≤◌, ◌≡◌, refl, ap, sym, ◌∙◌, Bool, Option, List, ◌∷◌, ◌++◌, map, inl,
  inr, ◌⊎◌, arith, leb, leb→le, Bool-cases,
}
use mathlib.Core.List.{map-append}
use corosync.Totemsrp.Membership.{Instance}
use corosync.Totemsrp.Deliver.{Mcast, Delivery, delivery}
use corosync.Totemsrp.Deliver.InOrder.{deliveries, deliveries_further}
use corosync.Totemsrp.Node.{RingNode}
use corosync.Totemsrp.Node.Window.{Outgoing, Ordered}
use corosync.Totemsrp.Node.Token.{Config}
use corosync.Totemsrp.Node.Runs.{Runs, Runs-Stands}

-- What a message says, without the order of its bytes at the sender.
abbrev pub text : Delivery → ℕ × List ℕ
text d = (d.nodeid, d.msg)

-- The same messages at two nodes.
abbrev pub SameText : (ℕ → Mcast) → (ℕ → Mcast) → Type 0
SameText ring ring' = (d : ℕ) → text (delivery (ring d)) ≡ text (delivery (ring' d))

text-deliveries :
    (ring ring' : ℕ → Mcast) (a n : ℕ)
    → SameText ring ring'
    → map text (deliveries ring a n) ≡ map text (deliveries ring' a n)
text-deliveries ring ring' a zero h = refl
text-deliveries ring ring' a (suc n) h =
    ap (λ x. x ∷ map text (deliveries ring (suc a) n)) (h (suc a))
    ∙ ap (λ l. text (delivery (ring' (suc a))) ∷ l) (text-deliveries ring ring' (suc a) n h)

-- The texts of one list are the first of the other.
abbrev pub Precedes : List Delivery → List Delivery → Type 0
Precedes xs ys = (rest : List (ℕ × List ℕ)) × (map text ys ≡ map text xs ++ rest)

Precedes-deliveries :
    (ring ring' : ℕ → Mcast) (n n' : ℕ) (xs ys : List Delivery)
    → SameText ring ring'
    → n ≤ n'
    → xs ≡ deliveries ring 0 n
    → ys ≡ deliveries ring' 0 n'
    → Precedes xs ys
Precedes-deliveries ring ring' n n' xs ys h p x y =
    let more = deliveries ring' n (n' - n) in
    let sum : n + (n' - n) ≡ n' = omega (arith, p) in
    (
      map text more,
      ap (map text)
            (y ∙ ap (deliveries ring' 0) (sym sum) ∙ sym (deliveries_further ring' n (n' - n)))
          ∙ map-append text (deliveries ring' 0 n) more
          ∙ ap (λ l. l ++ map text more) (sym (ap (map text) x ∙ text-deliveries ring ring' 0 n h)),
    )

other_way : (n n' : ℕ) → leb n n' ≡ Bool.false → n' ≤ n
other_way n n' h = ground (arith, h)

-- Two nodes of a ring deliver its messages in the same order: what one of them has delivered is the beginning of what
-- the other one has delivered. Each of them runs in the OPERATIONAL state, by packets of the ring, in any order, lost
-- or repeated, whose numbers are less than QUEUE_RTR_ITEMS_SIZE_MAX in front of what the node has released and less
-- than 2 ^ 31 behind it; by turns, each with a token that says the number of the last message, and has its aru and
-- that number less than QUEUE_RTR_ITEMS_SIZE_MAX in front of what is released, and the aru not behind it; and by
-- tokens that the node has seen before, whatever else they say, their aru less than QUEUE_RTR_ITEMS_SIZE_MAX from
-- what is released, on either side. What a node sends in a turn has to be the next part of the ring, so that no two
-- nodes number two messages alike. max_messages and window_size are together no more than QUEUE_RTR_ITEMS_SIZE_MAX,
-- and the retransmit list of a turn has no more than 30 entries.
pub Runs-Precedes :
    (c c' : Config) (operational_enter operational_enter' : RingNode → Option RingNode)
    (ring ring' : ℕ → Mcast) (base : ℕ) (m m' : Instance) (q q' : Outgoing)
    (gone gone' first first' e e' : ℕ) (s t s' t' : RingNode)
    → SameText ring ring'
    → Ordered ring base m q gone first s
    → Ordered ring' base m' q' gone' first' s'
    → Runs c operational_enter ring base m first s e t
    → Runs c' operational_enter' ring' base m' first' s' e' t'
    → Precedes t.delivering.delivered t'.delivering.delivered
      ⊎ Precedes t'.delivering.delivered t.delivering.delivered
Runs-Precedes c c' operational_enter operational_enter' ring ring' base m m' q q' gone gone' first
      first' e e' s t s' t' h o o' r r' =
    let p = (Runs-Stands (q, gone, o) r).2.0 in
    let p' = (Runs-Stands (q', gone', o') r').2.0 in
    elim (Bool-cases (leb p.done p'.done)) [
      | inl first ↦ inl (
          Precedes-deliveries ring ring' p.done p'.done _ _ h (leb→le _ _ first) p.prefix p'.prefix)
      | inr second ↦ inr (
          Precedes-deliveries ring' ring p'.done p.done _ _ (λ d. sym (h d))
            (other_way p.done p'.done second) p'.prefix p.prefix)
    ]
