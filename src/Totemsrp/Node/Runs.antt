-- ===== src/Totemsrp/Node/Runs.antt =====
-- What a node of exec/totemsrp.c becomes in the OPERATIONAL state by packets and tokens of its ring.
use corosync.Prelude.{
  ℕ, zero, suc, ◌+◌, ◌^◌, ◌≤◌, ◌<◌, ◌≡◌, refl, ap, sym, subst, ◌∙◌, Bool, Option, some, List, ◌++◌,
  length, inl, inr, arith, ltb, ltb→lt, Bool-cases, add32,
}
use mathlib.Core.List.{append_cancel_left}
use mathlib.Core.Option.{some-injective}
use corosync.Totemsrp.Membership.{Instance, operational, gather, memb_state_gather_enter}
use corosync.Totemsrp.Membership.Events.{fail_to_receive}
use corosync.Totemsrp.Deliver.{Mcast}
use corosync.Totemsrp.Deliver.InOrder.{deliveries}
use corosync.Totemsrp.Node.{RingNode, OrfToken, message_handler_mcast}
use corosync.Totemsrp.Node.Token.{Config, Arrivals}
use corosync.Totemsrp.Node.Handler.{message_handler_orf_token}
use corosync.Totemsrp.Node.Window.{Outgoing, Placed, Ordered}
use corosync.Totemsrp.Node.Packets.{message_packet, message_handler_mcast-Keeps}
use corosync.Totemsrp.Node.Turns.{AreRecent}
use corosync.Totemsrp.Node.Sending.{numbers}
use corosync.Totemsrp.Node.Histories.{Ordered-agree}
use corosync.Totemsrp.Node.Taken.{Continues, Fits}
use corosync.Totemsrp.Node.Seen.{IsSeen, message_handler_orf_token_seen}
use corosync.Totemsrp.Node.Handled.{message_handler_orf_token_lem}

-- A node has released the messages up to `gone`.
abbrev pub HasReleased : ℕ → ℕ → RingNode → Type 0
HasReleased base gone s =
    (s.last_released ≡ add32 base gone)
    × (gone ≤ length s.delivering.delivered)
    × (length s.delivering.delivered < gone + 2 ^ 31)

module _ (c : Config) (operational_enter : RingNode → Option RingNode) (ring : ℕ → Mcast) (base : ℕ)
    (m : Instance) where
  -- What a node becomes when `e` messages of the ring are sent. The other nodes send messages behind them; a packet of a
  -- message that is sent comes, in any order, lost or repeated, and whether or not a buffer is there; the token of
  -- the last message comes, and the node sends `n` more messages of the ring; or a token comes again.
  pub data Runs (first : ℕ) (s : RingNode) : ℕ → RingNode → Type 0 where
    here : Runs first s first s
    others_send : {e e' : ℕ} {t : RingNode} → Runs first s e t → e ≤ e' → Runs first s e' t
    packet :
        {e : ℕ} {t u : RingNode}
        → Runs first s e t
        → (gone d : ℕ) (buffer : Bool) → HasReleased base gone t
        → gone < d + 2 ^ 31
        → d < gone + 16384
        → d ≤ e
        → message_handler_mcast t (message_packet ring base m d) buffer ≡ some u
        → Runs first s e u
    turn :
        {e : ℕ} {t u : RingNode}
        → Runs first s e t
        → (gone aru n : ℕ) (arrivals : Arrivals) (token : OrfToken) → HasReleased base gone t
        → Fits c operational_enter base m gone e aru token
        → AreRecent ring base m gone e arrivals.flushed
        → message_handler_orf_token c operational_enter arrivals token t ≡ some u
        → u.membership.memb_state ≡ operational
        → u.multicasts ≡ t.multicasts ++ numbers base ring e n
        → Runs first s (e + n) u
    seen_token :
        {e : ℕ} {t u : RingNode}
        → Runs first s e t
        → (gone aru : ℕ) (arrivals : Arrivals) (token : OrfToken) → HasReleased base gone t
        → IsSeen base gone aru token t
        → AreRecent ring base m gone e arrivals.flushed
        → message_handler_orf_token c operational_enter arrivals token t ≡ some u
        → Runs first s e u

length-deliveries : (ring : ℕ → Mcast) (d n : ℕ) → length (deliveries ring d n) ≡ n
length-deliveries ring d zero = refl
length-deliveries ring d (suc n) = ap suc (length-deliveries ring (suc d) n)

released_once :
    (ring : ℕ → Mcast) (base : ℕ) (m : Instance) (q : Outgoing) (gone gone' e : ℕ) (s : RingNode)
    → Placed ring base m q gone e s
    → HasReleased base gone' s
    → gone ≡ gone'
released_once ring base m q gone gone' e s o r =
    let delivered : length s.delivering.delivered ≡ o.done =
      ap length o.prefix ∙ length-deliveries ring 0 o.done in
    omega (arith, delivered, r, sym o.gone_at ∙ r.0, o.gone-done, o.done-aru, o.aru-top, o.top-gone)

-- The messages of two rings are the same as far as what is sent is the same.
numbers-agree :
    (ring ring' : ℕ → Mcast) (base e n n' : ℕ)
    → numbers base ring e n ≡ numbers base ring' e n'
    → (n ≡ n') × ((d : ℕ) → e < d → d ≤ e + n → ring d ≡ ring' d)
numbers-agree ring ring' base e zero zero h = (refl, λ d p b. absurd (omega (arith, p, b)))
numbers-agree ring ring' base e zero (suc n') h = cc
numbers-agree ring ring' base e (suc n) zero h = cc
numbers-agree ring ring' base e (suc n) (suc n') h =
    let next : ring (suc e) ≡ ring' (suc e) = cc in
    let rest : numbers base ring (suc e) n ≡ numbers base ring' (suc e) n' = cc in
    let more = numbers-agree ring ring' base (suc e) n n' rest in
    (
      ap suc more.0,
      λ d p b. elim (Bool-cases (ltb (suc e) d)) [
        | inl t ↦ more.1 d (ltb→lt _ _ t) (omega (arith, b))
        | inr t ↦
            (let same : suc e ≡ d = ground (arith, t, p) in subst (λ d. ring d ≡ ring' d) same next)
      ],
    )

-- The order is kept when the other nodes send messages.
others_send-Ordered :
    (ring : ℕ → Mcast) (base : ℕ) (m : Instance) (q : Outgoing) (gone e e' : ℕ) (s : RingNode)
    → e ≤ e'
    → Ordered ring base m q gone e s
    → Ordered ring base m q gone e' s
others_send-Ordered ring base m q gone e e' s p (o, exact) = (
  record {
    done = o.done;
    aru = o.aru;
    top = o.top;
    last_aru = o.last_aru;
    own = o.own;
    state = o.state;
    outgoing_at = o.outgoing_at;
    queue = o.queue;
    size = o.size;
    window = o.window;
    gone_at = o.gone_at;
    done_at = o.done_at;
    aru_at = o.aru_at;
    top_at = o.top_at;
    last_aru_at = o.last_aru_at;
    prefix = o.prefix;
    above = o.above;
    gone-done = o.gone-done;
    done-aru = o.done-aru;
    aru-top = o.aru-top;
    top-last = omega (arith, p, o.top-last);
    top-gone = o.top-gone;
    gone-last = o.gone-last;
    last-gone = o.last-gone;
  },
  exact,
)

gathers : (m t : Instance) → t ≡ fail_to_receive m → t.memb_state ≡ operational → ⊥
unfolding fail_to_receive memb_state_gather_enter
gathers m t e o = let state : gather ≡ operational = sym (ap Instance.memb_state e) ∙ o in cc

-- A node in the order, whatever it still has to send and has released.
abbrev pub Stands : (ℕ → Mcast) → ℕ → Instance → ℕ → RingNode → Type 0
Stands ring base m e s = (q : Outgoing) × (gone : ℕ) × Ordered ring base m q gone e s

-- The messages that a node sends in its turn are those of the ring.
goes_on :
    (ring : ℕ → Mcast) (base : ℕ) (m : Instance) (before : List (ℕ × Mcast)) (e n : ℕ)
    (u : RingNode)
    → Continues ring base m before e u
    → u.multicasts ≡ before ++ numbers base ring e n
    → Stands ring base m (e + n) u
goes_on ring base m before e n u k sent =
    let own : u.multicasts ≡ before ++ numbers base k.ring' e k.count =
      ap Outgoing.multicasts k.ordered.0.outgoing_at ∙ k.sent in
    let same =
      numbers-agree ring k.ring' base e n k.count
        (append_cancel_left before _ _ (sym sent ∙ own)) in
    let last : k.last ≡ e + n = omega (arith, k.last_at, same.0) in
    let agree : (d : ℕ) → d ≤ e + n → k.ring' d ≡ ring d = λ d p. elim (Bool-cases (ltb e d)) [
      | inl t ↦ sym (same.1 d (ltb→lt _ _ t) p)
      | inr t ↦ k.old d (ground (arith, t))
    ] in
    (
      k.outgoing,
      k.gone,
      Ordered-agree k.ring' ring base m k.outgoing k.gone (e + n) u
          (subst (λ e. Ordered k.ring' base m k.outgoing k.gone e u) last k.ordered) agree,
    )

-- A node stays in the order.
pub Runs-Stands :
    {c : Config} {operational_enter : RingNode → Option RingNode} {ring : ℕ → Mcast} {base : ℕ}
    {m : Instance} {first : ℕ} {s : RingNode} {e : ℕ} {t : RingNode}
    → Stands ring base m first s
    → Runs c operational_enter ring base m first s e t
    → Stands ring base m e t
Runs-Stands o here = o
Runs-Stands {ring = ring} {base} {m} o (others_send {e = e} {e' = e'} {t = t} r p) =
    let k = Runs-Stands o r in (k.0, k.1, others_send-Ordered ring base m k.0 k.1 e e' t p k.2)
Runs-Stands {ring = ring} {base} {m} o
      (packet {e = e} {t = t} {u = u} r gone d buffer released lo hi last p) =
    let k = Runs-Stands o r in
    let at = released_once ring base m k.0 k.1 gone e t k.2.0 released in
    let ordered = subst (λ g. Ordered ring base m k.0 g e t) at k.2 in
    let h = message_handler_mcast-Keeps ring base m k.0 gone e t ordered d buffer lo hi last in
    (k.0, gone, subst (Ordered ring base m k.0 gone e) (some-injective h.0 u (sym h.1 ∙ p)) h.2)
Runs-Stands {c = c} {operational_enter} {ring} {base} {m} o
      (turn {e = e} {t = t} {u = u} r gone aru n arrivals token released f a p state sent) =
    let k = Runs-Stands o r in
    let at = released_once ring base m k.0 k.1 gone e t k.2.0 released in
    let ordered = subst (λ g. Ordered ring base m k.0 g e t) at k.2 in
    let before : t.multicasts ≡ k.0.multicasts = ap Outgoing.multicasts k.2.0.outgoing_at in
    let h =
      message_handler_orf_token_lem c operational_enter ring base m k.0 gone e aru arrivals token t
        f a ordered in
    let same = some-injective h.0 u (sym h.1 ∙ p) in
    elim h.2 [
      | inl on ↦
          goes_on ring base m k.0.multicasts e n u
            (subst (Continues ring base m k.0.multicasts e) same on)
            (sent ∙ ap (λ l. l ++ numbers base ring e n) before)
      | inr failed ↦
          absurd (gathers m u.membership (sym (ap RingNode.membership same) ∙ failed) state)
    ]
Runs-Stands {c = c} {operational_enter} {ring} {base} {m} o
      (seen_token {e = e} {t = t} {u = u} r gone aru arrivals token released f a p) =
    let k = Runs-Stands o r in
    let at = released_once ring base m k.0 k.1 gone e t k.2.0 released in
    let ordered = subst (λ g. Ordered ring base m k.0 g e t) at k.2 in
    let h =
      message_handler_orf_token_seen c operational_enter ring base m k.0 gone e aru arrivals token t
        f a ordered in
    (
      k.0,
      gone + h.1,
      subst (Ordered ring base m k.0 (gone + h.1) e) (some-injective h.0 u (sym h.2 ∙ p)) h.3,
    )
