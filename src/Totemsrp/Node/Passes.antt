-- ===== src/Totemsrp/Node/Passes.antt =====
-- What a node of exec/totemsrp.c keeps while it sends again and sends new messages.
use corosync.Prelude.{
  ℕ, suc, ◌+◌, ◌-◌, ◌≤◌, ◌<◌, ◌≡◌, refl, ap, sym, subst, ◌∙◌, false, Option, none, some, List, [],
  ◌++◌, length, inl, inr, arith, add32, ◌>>=◌,
}
use corosync.CsQueue.{CsQueue}
use corosync.CsQueue.Fifo
use corosync.CsQueue.Fifo.{contents}
use corosync.SortQueue.{Sq}
use corosync.SortQueue.View.{view}
use corosync.Totemsrp.Membership.{Instance}
use corosync.Totemsrp.Received.{Received, update_aru}
use corosync.Totemsrp.Multicast.{Ordering, send_messages, orf_token_mcast}
use corosync.Totemsrp.Flow.{Flow, FlowToken, share}
use corosync.Totemsrp.Flow.Limit.{fcc_rtr_limit_fits}
use corosync.Totemsrp.Deliver.{Mcast}
use corosync.Totemsrp.Deliver.Window.{Shows}
use corosync.Totemsrp.Retransmit.Sent.{AllItems, IsWord}
use corosync.Totemsrp.Retransmit.Missing.{orf_token_rtr_lem}
use corosync.Totemsrp.Node.{RingNode, new_queue, is_recovery}
use corosync.Totemsrp.Node.Token.{Config, Passing, put_new_queue, flow_token, resend, multicast}
use corosync.Totemsrp.Node.Window.{Outgoing, Placed, Ordered, update_aru-Keeps}
use corosync.Totemsrp.Node.Turns.{new_queue-put}
use corosync.Totemsrp.Node.Sending.{numbers, Follow, SendsOn, send_messages-SendsOn}

pub share-le :
    (window_size : ℕ) (s : Flow) (token : FlowToken) (n : ℕ) → share window_size s token n ≤ n
share-le window_size s token n = ground arith

two_steps :
    {A B C : Type 0} (l : Option A) (a : A) (f : A → Option B) (b : B) (k : A → B → Option C)
    → l ≡ some a
    → f a ≡ some b
    → (l >>= λ x. f x >>= k x) ≡ k a b
two_steps l a f b k p q = ap (λ o. o >>= λ x. f x >>= k x) p ∙ ap (λ o. o >>= k a) q

orf_token_mcast-some :
    (a : Ordering Mcast) (n : ℕ) (t : Ordering Mcast) (r : Received)
    → send_messages a n ≡ some t
    → update_aru t.received t.sort_queue ≡ some r
    → orf_token_mcast a n ≡ some (record t { received = r })
unfolding orf_token_mcast
orf_token_mcast-some a n t r p q =
    ap
      (λ o. o >>= λ t. update_aru t.received t.sort_queue >>= λ r. some (record t { received = r }))
      p
    ∙ ap (λ o. o >>= λ r. some (record t { received = r })) q

module _ (ring : ℕ → Mcast) (base : ℕ) (m : Instance) (q : Outgoing) (gone e : ℕ) where
  pub not_recovery :
      (s : RingNode) → Placed ring base m q gone e s → is_recovery s.membership.memb_state ≡ false
  not_recovery s o = ap (λ i. is_recovery i.memb_state) o.own ∙ ap is_recovery o.state

  -- A node with the token of message `e` in its turn.
  pub record Holds (c : Config) (p : Passing) : Type 0 where
    pub ordered : Ordered ring base m q gone e p.node
    pub token_at : p.token.seq ≡ add32 base e
    pub near : e < gone + 16384
    pub words : AllItems IsWord p.token.rtr_list
    pub short : length p.token.rtr_list ≤ 30
    pub few : p.allowed + c.window_size ≤ 16384

  replaced :
      (s : RingNode) (o : Ordered ring base m q gone e s) (sq : Sq Mcast) (resent : List Mcast)
      → Shows ring base (suc gone) sq
      → sq.size ≡ s.regular_sort_queue.size
      → ((d : ℕ) → view sq d ≡ view s.regular_sort_queue d)
      → Ordered ring base m q gone e (record s { regular_sort_queue = sq; resent = resent })
  replaced s (o, exact) sq resent w size same = (
    record {
      done = o.done;
      aru = o.aru;
      top = o.top;
      last_aru = o.last_aru;
      own = o.own;
      state = o.state;
      outgoing_at = o.outgoing_at;
      queue = o.queue;
      size = size ∙ o.size;
      window = w;
      gone_at = o.gone_at;
      done_at = o.done_at;
      aru_at = o.aru_at;
      top_at = o.top_at;
      last_aru_at = o.last_aru_at;
      prefix = o.prefix;
      above = λ d p b. same (d - suc gone) ∙ o.above d p (omega (arith, b, size));
      gone-done = o.gone-done;
      done-aru = o.done-aru;
      aru-top = o.aru-top;
      top-last = o.top-last;
      top-gone = o.top-gone;
      gone-last = o.gone-last;
      last-gone = o.last-gone;
    },
    elim exact [ inl all ↦ inl all | inr missing ↦ inr (same (suc o.aru - suc gone) ∙ missing) ],
  )

  pub resend-Holds :
      (c : Config) (p : Passing) → Holds c p → (t : Passing) × (resend c p ≡ some t) × Holds c t
  unfolding resend
  resend-Holds c p h =
      let s = p.node in
      let o = h.ordered.0 in
      let r =
        orf_token_rtr_lem ring base (suc gone) o.aru e s.membership.my_ring_rep
          s.membership.my_ring_seq c.miss_count_const s.received.my_aru p.token.seq p.allowed
          (record { sort_queue = s.regular_sort_queue; rtr_list = p.token.rtr_list; sent = [] })
          o.window o.aru_at h.token_at (omega (arith, o.gone-done, o.done-aru))
          (omega (arith, o.aru-top, o.top-last)) (omega (arith, h.near, o.size))
          (omega (arith, h.near, o.gone-done, o.done-aru)) h.words h.short in
      let d = r.2 in
      rw (not_recovery s o) (
        record {
          node = record s { regular_sort_queue = r.0.sort_queue; resent = s.resent ++ r.0.sent };
          token = record p.token { rtr_list = r.0.rtr_list };
          allowed = p.allowed - length r.0.sent;
          transmitted = length r.0.sent;
        },
        rw r.1 refl,
        record {
          ordered =
              replaced s h.ordered r.0.sort_queue (s.resent ++ r.0.sent) d.shows d.same_size
                d.same_view;
          token_at = h.token_at;
          near = h.near;
          words = d.words;
          short = d.short;
          few = omega (arith, h.few);
        },
      )

  -- What is sent and what still waits, after `count` messages.
  abbrev pub sent_on : CsQueue Mcast → ℕ → Outgoing
  sent_on w count = record { waiting = w; multicasts = q.multicasts ++ numbers base ring e count }

  -- What orf_token_mcast leaves, with `count` more messages in the ring.
  pub record Sends (c : Config) (p : Passing) (r : Option Passing) : Type 0 where
    pub passing : Passing
    pub result : r ≡ some passing
    pub waiting : CsQueue Mcast
    pub count : ℕ
    pub ordered : Ordered ring base m (sent_on waiting count) gone (e + count) passing.node
    pub near : e + count < gone + 16384

  -- The node with what is sent, before update_aru.
  abbrev after_sending : RingNode → Ordering Mcast → RingNode
  after_sending s t = record (put_new_queue s t.queue) {
    regular_sort_queue = t.sort_queue;
    received = t.received;
    multicasts = s.multicasts ++ t.sent;
  }

  module _ (s : RingNode) (o : Placed ring base m q gone e s) (n : ℕ) (a : Ordering Mcast)
      (r : Option (Ordering Mcast)) (sends : SendsOn ring base (suc gone) e n a r)
      (same_sent : a.sent ≡ []) (same_queue : a.sort_queue ≡ s.regular_sort_queue)
      (same_received : a.received ≡ s.received) (near : e + n < gone + 16384) where
    with_top :
        (top : ℕ)
        → o.aru ≤ top
        → top ≤ e + sends.count
        → sends.state.received.my_high_seq_received ≡ add32 base top
        → ((d : ℕ)
            → top < d
            → d < suc gone + s.regular_sort_queue.size
            → view sends.state.sort_queue (d - suc gone) ≡ none)
        → Placed ring base m
            (sent_on sends.state.queue sends.count)
            gone
            (e + sends.count)
            (after_sending s sends.state)
    with_top top lo hi at above =
        let size : sends.state.sort_queue.size ≡ s.regular_sort_queue.size =
          sends.same_size ∙ ap Sq.size same_queue in
        let sent : s.multicasts ++ sends.state.sent
            ≡ q.multicasts ++ numbers base ring e sends.count =
          ap (λ l. s.multicasts ++ l)
            (sends.sent ∙ ap (λ l. l ++ numbers base ring e sends.count) same_sent)
          ∙ ap (λ l. l ++ numbers base ring e sends.count) (ap Outgoing.multicasts o.outgoing_at) in
        record {
          done = o.done;
          aru = o.aru;
          top = top;
          last_aru = o.last_aru;
          own = o.own;
          state = o.state;
          outgoing_at = λ i. record {
            waiting = new_queue-put ring base m gone e s sends.state.queue i;
            multicasts = sent i;
          };
          queue = sends.queue;
          size = size ∙ o.size;
          window = sends.shows;
          gone_at = o.gone_at;
          done_at = o.done_at;
          aru_at = sends.same_aru ∙ ap Received.my_aru same_received ∙ o.aru_at;
          top_at = at;
          last_aru_at = o.last_aru_at;
          prefix = o.prefix;
          above = λ d p b. above d p (omega (arith, b, size));
          gone-done = o.gone-done;
          done-aru = o.done-aru;
          aru-top = lo;
          top-last = hi;
          top-gone = omega (arith, hi, sends.within, near);
          gone-last = o.gone-last;
          last-gone = o.last-gone;
        }

    after_sending-Placed :
        Placed ring base m
          (sent_on sends.state.queue sends.count)
          gone
          (e + sends.count)
          (after_sending s sends.state)
    after_sending-Placed = elim sends.high [
      | inl (z, high, queue) ↦
          with_top o.top o.aru-top (omega (arith, o.top-last))
            (high ∙ ap Received.my_high_seq_received same_received ∙ o.top_at)
            (λ d p b. ap (λ sq. view sq (d - suc gone)) (queue ∙ same_queue) ∙ o.above d p b)
      | inr high ↦
          with_top (e + sends.count) (omega (arith, o.aru-top, o.top-last)) (omega arith) high
            (λ d p b. sends.above d p (omega (arith, b, ap Sq.size same_queue)))
    ]

  pub multicast-Sends :
      (c : Config) (p : Passing)
      → Holds c p
      → 0 < c.window_size
      → Follow ring e (contents q.waiting)
      → Sends c p (multicast c p)
  unfolding multicast
  multicast-Sends c p h wide follow =
      let s = p.node in
      let o = h.ordered.0 in
      let behind : gone ≤ e = omega (arith, o.gone-done, o.done-aru, o.aru-top, o.top-last) in
      let limit =
        fcc_rtr_limit_fits c.window_size s.last_released (e - gone) p.allowed (flow_token p.token)
          (omega (arith, o.gone_at)) (omega (arith, h.near))
          (omega (arith, o.gone_at, h.token_at, behind)) h.few in
      let n = limit.0 in
      let room : e + n < gone + 16384 = elim limit.3 [
        | inl z ↦ omega (arith, z, h.near)
        | inr fits ↦ omega (arith, fits, limit.2, wide, behind)
      ] in
      let a : Ordering Mcast = record {
        queue = new_queue s;
        sort_queue = s.regular_sort_queue;
        sent = [];
        token_seq = p.token.seq;
        received = s.received;
      } in
      let sends =
        send_messages-SendsOn ring base (suc gone) n e a o.window
          (λ d b t. o.above d (omega (arith, b, o.top-last)) t) h.token_at
          (subst (Fifo.IsValid) (sym (ap Outgoing.waiting o.outgoing_at)) o.queue)
          (subst (λ x. Follow ring e (contents x)) (sym (ap Outgoing.waiting o.outgoing_at)) follow)
          (omega (arith, behind)) (omega (arith, room, o.size)) in
      let t = after_sending s sends.state in
      let placed = after_sending-Placed s o n a (send_messages a n) sends refl refl refl room in
      let u =
        update_aru-Keeps ring base m (sent_on sends.state.queue sends.count) gone (e + sends.count)
          t placed in
      rw (not_recovery s o) (
        rw (not_recovery s o) record {
          passing = record {
            node = record t { received = u.0 };
            token = record p.token { seq = sends.state.token_seq };
            allowed = n;
            transmitted = p.transmitted + length sends.state.sent;
          };
          result =
              two_steps _ n (orf_token_mcast a) (record sends.state { received = u.0 }) _ limit.1
                (orf_token_mcast-some a n sends.state u.0 sends.result u.1);
          waiting = sends.state.queue;
          count = sends.count;
          ordered = u.2;
          near = omega (arith, room, sends.within);
        })
