-- ===== src/Totemsrp/Node/Seen.antt =====
-- A token that a node of exec/totemsrp.c has seen before.
use corosync.Prelude.{
  ℕ, ◌+◌, ◌<◌, ◌≡◌, refl, ap, subst, ◌∙◌, Bool, true, false, Option, none, some, List, [], ◌∷◌,
  ◌==◌, not, ◌&&◌, if◌then◌else◌, Bool-cases, inl, inr, arith, add32, ◌>>=◌,
}
use corosync.SortQueue.{lte_compare}
use corosync.Totemsrp.Membership.{Instance, operational}
use corosync.Totemsrp.Deliver.{Mcast}
use corosync.Totemsrp.Node.{
  RingNode, McastPacket, Turn, OrfToken, deliver_received, note_received, keep_message,
  message_handler_mcast,
}
use corosync.Totemsrp.Node.Token.{
  Config, Arrivals, recv_flush, note_sequence, set_held, is_quiet, free_messages,
}
use corosync.Totemsrp.Node.Handler.{accept_token, by_state, message_handler_orf_token}
use corosync.Totemsrp.Node.Window.{Outgoing, Ordered}
use corosync.Totemsrp.Node.Freed.{free_messages-Freed}
use corosync.Totemsrp.Node.Turns.{AreRecent, recv_flush-Keeps}

-- A step leaves the variables of the turn.
abbrev KeepsTurn : RingNode → Option RingNode → Type 0
KeepsTurn s r = (t : RingNode) → r ≡ some t → t.turn ≡ s.turn

KeepsTurn-some : (s t : RingNode) → t.turn ≡ s.turn → KeepsTurn s (some t)
KeepsTurn-some s t h u e = cc

KeepsTurn-bind :
    {A : Type 0} (s : RingNode) (r : Option A) (f : A → Option RingNode)
    → ((a : A) → KeepsTurn s (f a))
    → KeepsTurn s (r >>= f)
KeepsTurn-bind s none f h t e = cc
KeepsTurn-bind s (some a) f h t e = h a t e

KeepsTurn-if :
    (s : RingNode) (b : Bool) (x y : Option RingNode)
    → KeepsTurn s x
    → KeepsTurn s y
    → KeepsTurn s (if b then x else y)
KeepsTurn-if s true x y p q = p
KeepsTurn-if s false x y p q = q

deliver_received-KeepsTurn : (s : RingNode) → KeepsTurn s (deliver_received s)
unfolding deliver_received
deliver_received-KeepsTurn s =
    KeepsTurn-if s _ _ _ (KeepsTurn-bind s _ _ (λ d. KeepsTurn-some s _ refl))
      (KeepsTurn-some s s refl)

note_received-KeepsTurn : (s : RingNode) → KeepsTurn s (note_received s)
unfolding note_received
note_received-KeepsTurn s =
    KeepsTurn-bind s _ _ (λ r. deliver_received-KeepsTurn (record s { received = r }))

KeepsTurn-then :
    (s : RingNode) (r : Option RingNode) (f : RingNode → Option RingNode)
    → KeepsTurn s r
    → ((t : RingNode) → KeepsTurn t (f t))
    → KeepsTurn s (r >>= f)
KeepsTurn-then s none f h k t e = cc
KeepsTurn-then s (some u) f h k t e = k u t e ∙ h u refl

message_handler_mcast-KeepsTurn :
    (s : RingNode) (p : McastPacket) (buffer : Bool)
    → KeepsTurn s (message_handler_mcast s p buffer)
unfolding message_handler_mcast keep_message
message_handler_mcast-KeepsTurn s p buffer = KeepsTurn-if s _ _ _ (KeepsTurn-some s _ refl) (
    KeepsTurn-if s _ _ _ (note_received-KeepsTurn s) (
      KeepsTurn-if s _ _ _ (KeepsTurn-some s s refl) (
        KeepsTurn-then s _ note_received (KeepsTurn-bind s _ _ (λ sq. KeepsTurn-some s _ refl))
          note_received-KeepsTurn)))

recv_flush-KeepsTurn :
    (s : RingNode) (ps : List (McastPacket × Bool)) → KeepsTurn s (recv_flush s ps)
unfolding recv_flush
recv_flush-KeepsTurn s [] = KeepsTurn-some s s refl
recv_flush-KeepsTurn s ((p, buffer) ∷ ps) =
    KeepsTurn-then s _ (λ t. recv_flush t ps) (message_handler_mcast-KeepsTurn s p buffer)
      (λ t. recv_flush-KeepsTurn t ps)

-- A token of the ring with the aru `aru`, which may be behind what the node has released.
pub record IsSeen (base gone aru : ℕ) (token : OrfToken) (s : RingNode) : Type 0 where
  pub aru_at : token.aru ≡ add32 base aru
  pub gone-aru : gone < aru + 16384
  pub aru-gone : aru < gone + 16384
  pub seen : lte_compare token.token_seq s.turn.my_token_seq ≡ true

-- A step succeeds and keeps the order, and the node has as much to send and has sent as much as before.
abbrev pub KeepsSending : (ℕ → Mcast) → ℕ → Instance → Outgoing → ℕ → ℕ → Option RingNode → Type 0
KeepsSending ring base m q gone e r =
    (t : RingNode) × (more : ℕ) × (r ≡ some t) × Ordered ring base m q (gone + more) e t

unreleased :
    (ring : ℕ → Mcast) (base : ℕ) (m : Instance) (q : Outgoing) (gone e : ℕ) (s : RingNode)
    → Ordered ring base m q gone e s
    → Ordered ring base m q (gone + 0) e s
unreleased ring base m q gone e s o =
    let same : gone ≡ gone + 0 = omega arith in subst (λ g. Ordered ring base m q g e s) same o

discard_or :
    (ring : ℕ → Mcast) (base : ℕ) (m : Instance) (q : Outgoing) (gone e : ℕ) (b : Bool)
    (s : RingNode) (r : Option RingNode)
    → Ordered ring base m q gone e s
    → KeepsSending ring base m q gone e r
    → KeepsSending ring base m q gone e (if b then some s else r)
discard_or ring base m q gone e true s r o h = (s, 0, refl, unreleased ring base m q gone e s o)
discard_or ring base m q gone e false s r o h = h

module _ (c : Config) (operational_enter : RingNode → Option RingNode) (ring : ℕ → Mcast) (base : ℕ)
    (m : Instance) (q : Outgoing) (gone e aru : ℕ) (arrivals : Arrivals) (token : OrfToken) where
  discards :
      (s : RingNode)
      → lte_compare token.token_seq s.turn.my_token_seq ≡ true
      → accept_token c operational_enter arrivals token s ≡ some s
  unfolding accept_token
  discards s seen =
      elim (Bool-cases (
        not (
          token.ring_rep == s.membership.my_ring_rep
          && token.ring_seq == s.membership.my_ring_seq))) [
            | inl other ↦ rw other refl
            | inr own ↦ rw (own, seen) refl
          ]

  in_operational :
      (s : RingNode)
      → IsSeen base gone aru token s
      → Ordered ring base m q gone e s
      → KeepsSending ring base m q gone e
          (by_state operational c operational_enter arrivals token s)
  unfolding by_state
  in_operational s h o =
      let freed = free_messages-Freed ring base m q gone e aru s o h.gone-aru h.aru-gone in
      let seen : lte_compare token.token_seq freed.node.turn.my_token_seq ≡ true =
        ap (λ t. lte_compare token.token_seq (Turn.my_token_seq t)) freed.same_turn ∙ h.seen in
      (
        freed.node,
        freed.more,
        ap (λ a. free_messages s a >>= λ t. accept_token c operational_enter arrivals token t)
              h.aru_at
            ∙ ap (λ r. r >>= λ t. accept_token c operational_enter arrivals token t) freed.result
            ∙ discards freed.node seen,
        freed.ordered,
      )

-- A token of the ring that the node has seen before keeps the order, and the node sends nothing, whatever else the
-- token says: the packets that come in are taken, and messages may be released, up to its aru.
pub message_handler_orf_token_seen :
    (c : Config) (operational_enter : RingNode → Option RingNode) (ring : ℕ → Mcast) (base : ℕ)
    (m : Instance) (q : Outgoing) (gone e aru : ℕ) (arrivals : Arrivals) (token : OrfToken)
    (s : RingNode)
    → IsSeen base gone aru token s
    → AreRecent ring base m gone e arrivals.flushed
    → Ordered ring base m q gone e s
    → KeepsSending ring base m q gone e
        (message_handler_orf_token c operational_enter arrivals token s)
unfolding message_handler_orf_token
message_handler_orf_token_seen c operational_enter ring base m q gone e aru arrivals token s h a o =
    let noted = note_sequence s token in
    let t = recv_flush-Keeps ring base m gone e q noted arrivals.flushed o a in
    let u = set_held t.0 (is_quiet c t.0) in
    let turn = recv_flush-KeepsTurn noted arrivals.flushed t.0 t.1 in
    let state : t.0.membership.memb_state ≡ operational =
      ap Instance.memb_state t.2.0.own ∙ t.2.0.state in
    let rest =
      in_operational c operational_enter ring base m q gone e aru arrivals token u
        (record {
          aru_at = h.aru_at;
          gone-aru = h.gone-aru;
          aru-gone = h.aru-gone;
          seen = ap (λ t. lte_compare token.token_seq (Turn.my_token_seq t)) turn ∙ h.seen;
        })
        t.2 in
    discard_or ring base m q gone e s.membership.orf_token_discard s _ o (
      rest.0,
      rest.1,
      ap
            (λ r. r >>= λ t.
              by_state t.membership.memb_state c operational_enter arrivals token
                (set_held t (is_quiet c t)))
            t.1
          ∙ ap (λ st. by_state st c operational_enter arrivals token u) state
          ∙ rest.2,
      rest.3,
    )
