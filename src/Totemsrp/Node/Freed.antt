-- ===== src/Totemsrp/Node/Freed.antt =====
-- What messages_free of exec/totemsrp.c leaves of the messages of the ring.
use corosync.Prelude.{
  ℕ, suc, ◌+◌, ◌-◌, ◌≤◌, ◌<◌, ◌≡◌, refl, ap, ◌∙◌, Option, none, some, inl, inr, ◌⊎◌, arith, ltb,
  ltb→lt, Bool-cases, add32, ◌>>=◌,
}
use corosync.SortQueue.{Sq}
use corosync.SortQueue.View.{view}
use corosync.Totemsrp.Membership.{Instance}
use corosync.Totemsrp.Release.Shift.{Shifted, lesser, releases, messages_free_lem}
use corosync.Totemsrp.Deliver.{Mcast}
use corosync.Totemsrp.Deliver.Window.{Shows}
use corosync.Totemsrp.Node.{RingNode}
use corosync.Totemsrp.Node.Token.{free_messages}
use corosync.Totemsrp.Node.Window.{Outgoing, Placed, Ordered, Exact}

further : (gone n d size : ℕ) → suc (gone + n) ≤ d → d - suc (gone + n) + n ≡ d - suc gone
further gone n d size p = omega (arith, p)

-- A place of the shifted window is one of the window before, or free.
module _ {A : Type 0} (sq t : Sq A) (gone n head : ℕ) (sh : Shifted sq head n t) (d : ℕ)
    (lo : suc (gone + n) ≤ d) (hi : d < suc (gone + n) + sq.size) where
  shifted :
      (view t (d - suc (gone + n)) ≡ none)
      ⊎ ((d < suc gone + sq.size) × (view t (d - suc (gone + n)) ≡ view sq (d - suc gone)))
  shifted =
      let at = sh.places (d - suc (gone + n)) (omega (arith, lo, hi)) in
      let e = further gone n d sq.size lo in
      elim (Bool-cases (ltb (d - suc (gone + n) + n) sq.size)) [
        | inl near ↦ inr (omega (arith, ltb→lt _ _ near, e, lo), at ∙ rw near (ap (view sq) e))
        | inr far ↦ inl (at ∙ rw far refl)
      ]

Shows-shifted :
    {A : Type 0} (ring : ℕ → A) (base gone n head : ℕ) (sq t : Sq A)
    → Shows ring base (suc gone) sq
    → Shifted sq head n t
    → head ≡ add32 base (suc (gone + n))
    → Shows ring base (suc (gone + n)) t
Shows-shifted ring base gone n head sq t w sh at = record {
  valid = sh.valid;
  head_at = sh.head_at ∙ at;
  agrees = λ d p q. elim (shifted sq t gone n _ sh d p (omega (arith, q, sh.same_size))) [
    | inl free ↦ inl free
    | inr (near, same) ↦ elim (w.agrees d (omega (arith, p)) near) [
      | inl free ↦ inl (same ∙ free)
      | inr held ↦ inr (same ∙ held)
    ]
  ];
}

free-Shifted :
    {A : Type 0} (gone n head d : ℕ) (sq t : Sq A)
    → Shifted sq head n t
    → suc (gone + n) ≤ d
    → d < suc (gone + n) + sq.size
    → (d < suc gone + sq.size → view sq (d - suc gone) ≡ none)
    → view t (d - suc (gone + n)) ≡ none
free-Shifted gone n head d sq t sh lo hi h = elim (shifted sq t gone n head sh d lo hi) [
  | inl free ↦ free
  | inr (near, same) ↦ same ∙ h near
]

-- The node after messages_free, with `more` messages released.
pub record Freed (ring : ℕ → Mcast) (base : ℕ) (m : Instance) (q : Outgoing) (gone e c : ℕ)
    (s : RingNode) (r : Option RingNode) : Type 0 where
  pub node : RingNode
  pub result : r ≡ some node
  pub more : ℕ
  pub ordered : Ordered ring base m q (gone + more) e node
  pub upto : gone ≤ c → gone + more ≤ c
  pub same_turn : node.turn ≡ s.turn

-- The token's aru may be behind what is released.
pub free_messages-Freed :
    (ring : ℕ → Mcast) (base : ℕ) (m : Instance) (q : Outgoing) (gone e c : ℕ) (s : RingNode)
    → Ordered ring base m q gone e s
    → gone < c + 16384
    → c < gone + 16384
    → Freed ring base m q gone e c s (free_messages s (add32 base c))
unfolding free_messages
free_messages-Freed ring base m q gone e c s (o, exact) lo hi =
    let sq = s.regular_sort_queue in
    let n = releases gone c o.last_aru o.done in
    let low = lesser gone c in
    let low_gone : low ≤ gone = ground arith in
    let low_c : low ≤ c = ground arith in
    let gone_low : gone < low + 16384 = ground (arith, lo) in
    let least : n ≤ o.done - gone = ground arith in
    let least_last : n ≤ o.last_aru - gone = ground arith in
    let least_c : n ≤ c - gone = ground arith in
    let f =
      messages_free_lem
        (record {
          sort_queue = sq;
          my_last_aru = s.my_last_aru;
          my_high_delivered = s.delivering.my_high_delivered;
          last_released = s.last_released;
          released = s.released;
        })
        (add32 base c) base low gone c o.last_aru o.done
        (record {
          valid = o.window.valid;
          head_at = o.window.head_at;
          released_at = o.gone_at;
          token_at = refl;
          last_at = o.last_aru_at;
          delivered_at = o.done_at;
          lo-gone = low_gone;
          gone-lo = omega (arith, gone_low);
          lo-token = low_c;
          token-lo = omega (arith, gone_low, hi);
          lo-last = omega (arith, low_gone, o.gone-last);
          last-lo = omega (arith, gone_low, o.last-gone);
          lo-delivered = omega (arith, low_gone, o.gone-done);
          delivered-lo = omega (arith, gone_low, o.done-aru, o.aru-top, o.top-gone);
          in_window = omega (arith, o.done-aru, o.aru-top, o.top-gone, o.size);
          in_queue = omega (arith, o.size);
        }) in
    let h = f.0 in
    let t = record s {
      regular_sort_queue = h.sort_queue;
      last_released = h.last_released;
      released = h.released;
    } in
    let placed : Placed ring base m q (gone + n) e t = record {
      done = o.done;
      aru = o.aru;
      top = o.top;
      last_aru = o.last_aru;
      own = o.own;
      state = o.state;
      queue = o.queue;
      outgoing_at = o.outgoing_at;
      size = f.4.same_size ∙ o.size;
      window = Shows-shifted ring base gone n _ sq h.sort_queue o.window f.4 refl;
      gone_at = f.2;
      done_at = o.done_at;
      aru_at = o.aru_at;
      top_at = o.top_at;
      last_aru_at = o.last_aru_at;
      prefix = o.prefix;
      above = λ d p b.
          free-Shifted gone n _ d sq h.sort_queue f.4
            (omega (arith, p, least, o.gone-done, o.done-aru, o.aru-top))
            (omega (arith, b, f.4.same_size)) (λ near. o.above d p near);
      gone-done = omega (arith, least, o.gone-done);
      done-aru = o.done-aru;
      aru-top = o.aru-top;
      top-last = o.top-last;
      top-gone = omega (arith, o.top-gone);
      gone-last = omega (arith, least_last, o.gone-last);
      last-gone = omega (arith, o.last-gone);
    } in
    let still : Exact ring base m q (gone + n) e t placed = elim exact [
      | inl same ↦ inl same
      | inr missing ↦ inr (
          free-Shifted gone n _ (suc o.aru) sq h.sort_queue f.4
            (omega (arith, least, o.gone-done, o.done-aru))
            (omega (arith, o.aru-top, o.top-gone, o.size)) (λ near. missing))
    ] in
    record {
      node = t;
      result =
          ap
            (λ r. r >>= λ h. some (record s {
              regular_sort_queue = h.sort_queue;
              last_released = h.last_released;
              released = h.released;
            }))
            f.1;
      more = n;
      ordered = (placed, still);
      upto = λ p. omega (arith, least_c, p);
      same_turn = refl;
    }
