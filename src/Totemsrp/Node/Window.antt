-- ===== src/Totemsrp/Node/Window.antt =====
-- The sort queue of a node of exec/totemsrp.c, and what it has delivered of its ring.
use corosync.Prelude.{
  ℕ, suc, ◌+◌, ◌-◌, ◌≤◌, ◌<◌, ◌≡◌, refl, ap, sym, ◌∙◌, false, Option, none, some, inl, inr, ◌⊎◌,
  arith, ◌++◌, ltb, ltb→lt, if◌then◌else◌, Bool-cases, add32, sub32, ◌>>=◌, List,
}
use mathlib.Core.Option.{some-injective}
use corosync.SortQueue.{Sq, item_get}
use corosync.SortQueue.View.{view}
use corosync.CsQueue.{CsQueue}
use corosync.CsQueue.Fifo
use corosync.Totemsrp.Membership.{Instance, operational}
use corosync.Totemsrp.Received.{Received, update_aru}
use corosync.Totemsrp.Received.Holes.{update_aru_lem}
use corosync.Totemsrp.Deliver.{Mcast, Delivering, messages_deliver_to_app}
use corosync.Totemsrp.Deliver.Window.{Shows, item_get_at}
use corosync.Totemsrp.Deliver.InOrder.{
  deliveries, deliveries_further, messages_deliver_to_app_in_order,
}
use corosync.Totemsrp.Node.{RingNode, new_queue, is_operational, deliver_received}

-- The messages that wait to be sent, and those that are sent.
pub record Outgoing : Type 0 where
  pub waiting : CsQueue Mcast
  pub multicasts : List (ℕ × Mcast)

-- What of a node the order depends on.
pub record Core : Type 0 where
  pub membership : Instance
  pub regular_sort_queue : Sq Mcast
  pub received : Received
  pub delivering : Delivering
  pub my_last_aru : ℕ
  pub last_released : ℕ
  pub outgoing : Outgoing

abbrev pub core : RingNode → Core
core s = record {
  membership = s.membership;
  regular_sort_queue = s.regular_sort_queue;
  received = s.received;
  delivering = s.delivering;
  my_last_aru = s.my_last_aru;
  last_released = s.last_released;
  outgoing = record { waiting = new_queue s; multicasts = s.multicasts };
}

-- In the OPERATIONAL state, with the membership `m` and the messages of `q` waiting and sent, a node has delivered
-- the first messages of its ring, message `d` having the number add32 base d and `e` of them having been sent. It has
-- released those up to `gone`, delivered those up to `done`, received all up to `aru`, and none behind `top`;
-- `last_aru` is the aru of the last token.
pub record PlacedAt (ring : ℕ → Mcast) (base : ℕ) (m : Instance) (q : Outgoing) (gone e : ℕ)
    (s : Core) : Type 0 where
  pub done : ℕ
  pub aru : ℕ
  pub top : ℕ
  pub last_aru : ℕ
  pub own : s.membership ≡ m
  pub state : m.memb_state ≡ operational
  pub outgoing_at : s.outgoing ≡ q
  pub queue : Fifo.IsValid q.waiting
  pub size : s.regular_sort_queue.size ≡ 16384
  pub window : Shows ring base (suc gone) s.regular_sort_queue
  pub gone_at : s.last_released ≡ add32 base gone
  pub done_at : s.delivering.my_high_delivered ≡ add32 base done
  pub aru_at : s.received.my_aru ≡ add32 base aru
  pub top_at : s.received.my_high_seq_received ≡ add32 base top
  pub last_aru_at : s.my_last_aru ≡ add32 base last_aru
  pub prefix : s.delivering.delivered ≡ deliveries ring 0 done
  pub above :
      (d : ℕ)
      → top < d
      → d < suc gone + s.regular_sort_queue.size
      → view s.regular_sort_queue (d - suc gone) ≡ none
  pub gone-done : gone ≤ done
  pub done-aru : done ≤ aru
  pub aru-top : aru ≤ top
  pub top-last : top ≤ e
  pub top-gone : top < gone + 16384
  pub gone-last : gone ≤ last_aru
  pub last-gone : last_aru < gone + 16384

abbrev pub Placed : (ℕ → Mcast) → ℕ → Instance → Outgoing → ℕ → ℕ → RingNode → Type 0
Placed ring base m q gone e s = PlacedAt ring base m q gone e (core s)

-- The next message behind `aru` is missing.
abbrev pub Exact :
    (ring : ℕ → Mcast) (base : ℕ) (m : Instance) (q : Outgoing) (gone e : ℕ) (s : RingNode)
    → Placed ring base m q gone e s
    → Type 0
Exact ring base m q gone e s o =
    (o.aru ≡ o.top) ⊎ (view s.regular_sort_queue (suc o.aru - suc gone) ≡ none)

abbrev pub Ordered :
    (ring : ℕ → Mcast) (base : ℕ) (m : Instance) (q : Outgoing) (gone e : ℕ) (s : RingNode) → Type 0
Ordered ring base m q gone e s =
    (o : Placed ring base m q gone e s) × Exact ring base m q gone e s o

-- A step succeeds and keeps that.
abbrev pub Keeps : (ℕ → Mcast) → ℕ → Instance → Outgoing → ℕ → ℕ → Option RingNode → Type 0
Keeps ring base m q gone e r = (t : RingNode) × (r ≡ some t) × Ordered ring base m q gone e t

deliver_received-some :
    (s : RingNode) (d : Delivering)
    → s.membership.memb_state ≡ operational
    → messages_deliver_to_app s.regular_sort_queue s.my_deliver_memb_list false
        s.received.my_high_seq_received s.delivering
      ≡ some d
    → deliver_received s ≡ some (record s { delivering = d })
unfolding deliver_received
deliver_received-some s d state e =
    let delivered =
      messages_deliver_to_app s.regular_sort_queue s.my_deliver_memb_list false
        s.received.my_high_seq_received s.delivering
      >>= λ d. some (record s { delivering = d }) in
    ap (λ m. if is_operational m then delivered else some s) state
    ∙ ap (λ o. o >>= λ d. some (record s { delivering = d })) e

reaches : {A : Type 0} (o : Option A) (x y : A) → o ≡ some x → o ≡ none → ⊥
reaches o x y p q = cc

-- The delivery of what is received keeps the order, and does not pass `aru`.
pub deliver_received-Keeps :
    (ring : ℕ → Mcast) (base : ℕ) (m : Instance) (q : Outgoing) (gone e : ℕ) (s : RingNode)
    → Ordered ring base m q gone e s
    → Keeps ring base m q gone e (deliver_received s)
deliver_received-Keeps ring base m q gone e s (o, exact) =
    let sq = s.regular_sort_queue in
    let l =
      messages_deliver_to_app_in_order ring base (suc gone) o.done o.top sq s.my_deliver_memb_list
        s.delivering o.window (omega (arith, o.gone-done)) (omega (arith, o.done-aru, o.aru-top))
        (omega (arith, o.top-gone, o.size)) (omega (arith, o.gone-done, o.top-gone)) o.done_at in
    let upto : o.done + l.more ≤ o.aru = elim exact [
      | inl same ↦ omega (arith, same, l.within, o.done-aru)
      | inr missing ↦ elim (Bool-cases (ltb o.aru (o.done + l.more))) [
        | inl t ↦ absurd (
            reaches _ _ (ring (suc o.aru))
              (l.held (suc o.aru) (omega (arith, o.done-aru)) (ltb→lt _ _ t)) missing)
        | inr t ↦ ground (arith, t)
      ]
    ] in
    let t = record s {
      delivering = record {
        my_high_delivered = add32 base (o.done + l.more);
        delivered = s.delivering.delivered ++ deliveries ring o.done l.more;
      };
    } in
    let placed : Placed ring base m q gone e t = record {
      done = o.done + l.more;
      aru = o.aru;
      top = o.top;
      last_aru = o.last_aru;
      own = o.own;
      state = o.state;
      queue = o.queue;
      outgoing_at = o.outgoing_at;
      size = o.size;
      window = o.window;
      gone_at = o.gone_at;
      done_at = refl;
      aru_at = o.aru_at;
      top_at = o.top_at;
      last_aru_at = o.last_aru_at;
      prefix =
          ap (λ ds. ds ++ deliveries ring o.done l.more) o.prefix
          ∙ deliveries_further ring o.done l.more;
      above = o.above;
      gone-done = omega (arith, o.gone-done);
      done-aru = upto;
      aru-top = o.aru-top;
      top-last = o.top-last;
      top-gone = o.top-gone;
      gone-last = o.gone-last;
      last-gone = o.last-gone;
    } in
    (
      t,
      deliver_received-some s _ (ap Instance.memb_state o.own ∙ o.state) (
          ap (λ end. messages_deliver_to_app sq s.my_deliver_memb_list false end s.delivering)
            o.top_at
          ∙ l.result),
      (placed, exact),
    )

-- update_aru succeeds and makes `aru` exact.
pub update_aru-Keeps :
    (ring : ℕ → Mcast) (base : ℕ) (m : Instance) (q : Outgoing) (gone e : ℕ) (s : RingNode)
    → Placed ring base m q gone e s
    → (r : Received) × (update_aru s.received s.regular_sort_queue ≡ some r)
      × Ordered ring base m q gone e (record s { received = r })
update_aru-Keeps ring base m q gone e s o =
    let sq = s.regular_sort_queue in
    let u = update_aru_lem s.received sq o.window.valid (λ j p q. omega (
      arith, p, q, o.aru_at, o.top_at, o.aru-top, o.top-gone, o.gone-done, o.done-aru,
      o.window.head_at, o.size,
    )) in
    let range : sub32 s.received.my_high_seq_received s.received.my_aru ≡ o.top - o.aru =
      omega (arith, o.aru_at, o.top_at, o.aru-top, o.top-gone, o.gone-done, o.done-aru) in
    let upto : o.aru + u.0 ≤ o.top = omega (arith, u.2, range, o.aru-top) in
    let r = record s.received { my_aru = add32 s.received.my_aru u.0 } in
    let placed : Placed ring base m q gone e (record s { received = r }) = record {
      done = o.done;
      aru = o.aru + u.0;
      top = o.top;
      last_aru = o.last_aru;
      own = o.own;
      state = o.state;
      queue = o.queue;
      outgoing_at = o.outgoing_at;
      size = o.size;
      window = o.window;
      gone_at = o.gone_at;
      done_at = o.done_at;
      aru_at = omega (arith, o.aru_at);
      top_at = o.top_at;
      last_aru_at = o.last_aru_at;
      prefix = o.prefix;
      above = o.above;
      gone-done = o.gone-done;
      done-aru = omega (arith, o.done-aru);
      aru-top = upto;
      top-last = o.top-last;
      top-gone = o.top-gone;
      gone-last = o.gone-last;
      last-gone = o.last-gone;
    } in
    let exact : Exact ring base m q gone e (record s { received = r }) placed = elim u.4 [
      | inl same ↦ inl (omega (arith, same, range, o.aru-top))
      | inr missing ↦ elim (Bool-cases (ltb (o.aru + u.0) o.top)) [
        | inl t ↦ inr (
            some-injective _ _ (
              sym (
                item_get_at o.window (suc (o.aru + u.0)) (omega (arith, o.gone-done, o.done-aru))
                  (omega (arith, ltb→lt _ _ t, o.top-gone, o.size)))
              ∙ ap (item_get sq) (omega (arith, o.aru_at))
              ∙ missing))
        | inr t ↦ inl (ground (arith, t, upto))
      ]
    ] in
    (r, u.1, (placed, exact))
