-- ===== src/Totemsrp/Node/Turns.antt =====
-- What the parts of a turn of the token of exec/totemsrp.c keep.
use corosync.Prelude.{
  ℕ, ◌+◌, ◌^◌, ◌≤◌, ◌<◌, ◌≡◌, refl, ap, sym, ◌∙◌, Bool, false, Option, some, List, [], ◌∷◌, inl,
  inr, arith, ◌||◌, not, Bool-cases, ◌>>=◌,
}
use corosync.CsQueue
use corosync.CsQueue.{CsQueue}
use corosync.CsQueue.Fifo
use corosync.CsQueue.Fifo.{contents, item_add-contents}
use corosync.Totemsrp.Membership.{Instance}
use corosync.Totemsrp.Deliver.{Mcast}
use corosync.Totemsrp.Node.{RingNode, McastPacket, new_queue, message_handler_mcast}
use corosync.Totemsrp.Node.Token.{
  Submission, put_new_queue, totemsrp_mcast, token_callbacks_execute, recv_flush,
}
use corosync.Totemsrp.Node.Window.{Outgoing, Ordered, Keeps}
use corosync.Totemsrp.Node.Packets.{message_packet, message_handler_mcast-Keeps}

module _ (ring : ℕ → Mcast) (base : ℕ) (m : Instance) (gone e : ℕ) where
  -- The packets are messages of the ring, not too old and not too new.
  abbrev pub AreRecent : List (McastPacket × Bool) → Type 0
  AreRecent [] = Unit {0}
  AreRecent (p ∷ ps) =
      ((d : ℕ) × (p.0 ≡ message_packet ring base m d)
        × (gone < d + 2 ^ 31)
        × (d < gone + 16384)
        × (d ≤ e))
      × AreRecent ps

  pub recv_flush-Keeps :
      (q : Outgoing) (s : RingNode) (ps : List (McastPacket × Bool))
      → Ordered ring base m q gone e s
      → AreRecent ps
      → Keeps ring base m q gone e (recv_flush s ps)
  unfolding recv_flush
  recv_flush-Keeps q s [] o a = (s, refl, o)
  recv_flush-Keeps q s ((p, buffer) ∷ ps) o a =
      let first =
        message_handler_mcast-Keeps ring base m q gone e s o a.0.0 buffer a.0.2 a.0.3 a.0.4 in
      let rest = recv_flush-Keeps q first.0 ps first.2 a.1 in
      (
        rest.0,
        ap (λ p. message_handler_mcast s p buffer >>= λ t. recv_flush t ps) a.0.1
            ∙ ap (λ r. r >>= λ t. recv_flush t ps) first.1
            ∙ rest.1,
        rest.2,
      )

  pub new_queue-put : (s : RingNode) (q : CsQueue Mcast) → new_queue (put_new_queue s q) ≡ q
  new_queue-put s q = elim (Bool-cases s.waiting_trans_ack) [
    | inl t ↦ rw t refl
    | inr t ↦ rw t refl
  ]

  -- The same with other messages waiting.
  requeue :
      (q : Outgoing) (w : CsQueue Mcast) (s : RingNode)
      → Ordered ring base m q gone e s
      → Fifo.IsValid w
      → Ordered ring base m
          (record { waiting = w; multicasts = q.multicasts })
          gone
          e
          (put_new_queue s w)
  requeue q w s (o, exact) v = (
    record {
      done = o.done;
      aru = o.aru;
      top = o.top;
      last_aru = o.last_aru;
      own = o.own;
      state = o.state;
      outgoing_at = λ i. record {
        waiting = new_queue-put s w i;
        multicasts = ap Outgoing.multicasts o.outgoing_at i;
      };
      queue = v;
      size = o.size;
      window = o.window;
      gone_at = o.gone_at;
      done_at = o.done_at;
      aru_at = o.aru_at;
      top_at = o.top_at;
      last_aru_at = o.last_aru_at;
      prefix = o.prefix;
      above = o.above;
      gone-done = o.gone-done;
      done-aru = o.done-aru;
      aru-top = o.aru-top;
      top-last = o.top-last;
      top-gone = o.top-gone;
      gone-last = o.gone-last;
      last-gone = o.last-gone;
    },
    exact,
  )

  -- A step succeeds, and keeps the order while messages are added to those that wait.
  abbrev pub KeepsAdding : List (ℕ × Mcast) → Option RingNode → Type 0
  KeepsAdding sent r =
      (t : RingNode) × (q : Outgoing) × (r ≡ some t)
      × (q.multicasts ≡ sent)
      × Ordered ring base m q gone e t

  totemsrp_mcast-Keeps :
      (q : Outgoing) (s : RingNode) (x : Submission)
      → Ordered ring base m q gone e s
      → KeepsAdding q.multicasts (totemsrp_mcast s x)
  unfolding totemsrp_mcast
  totemsrp_mcast-Keeps q s x o =
      let message : Mcast = record {
        nodeid = s.membership.my_id;
        system_from = s.membership.my_id;
        other_order = false;
        payload = x.payload;
      } in
      elim (Bool-cases (CsQueue.is_full (new_queue s) || not x.buffer)) [
        | inl refused ↦ (s, q, rw refused refl, refl, o)
        | inr taken ↦
            (let room : CsQueue.is_full q.waiting ≡ false =
                ap CsQueue.is_full (sym (ap Outgoing.waiting o.0.outgoing_at))
                ∙ ground (arith, taken) in
              let added = item_add-contents q.waiting message o.0.queue room in
              (
                put_new_queue s added.0,
                record { waiting = added.0; multicasts = q.multicasts },
                rw taken (
                    ap (λ w. CsQueue.item_add w message >>= λ q. some (put_new_queue s q))
                      (ap Outgoing.waiting o.0.outgoing_at)
                    ∙ ap (λ r. r >>= λ q. some (put_new_queue s q)) added.1),
                refl,
                requeue q added.0 s o added.2,
              ))
      ]

  pub token_callbacks_execute-Keeps :
      (q : Outgoing) (s : RingNode) (xs : List Submission)
      → Ordered ring base m q gone e s
      → KeepsAdding q.multicasts (token_callbacks_execute s xs)
  unfolding token_callbacks_execute
  token_callbacks_execute-Keeps q s [] o = (s, q, refl, refl, o)
  token_callbacks_execute-Keeps q s (x ∷ xs) o =
      let first = totemsrp_mcast-Keeps q s x o in
      let rest = token_callbacks_execute-Keeps first.1 first.0 xs first.4 in
      (
        rest.0,
        rest.1,
        ap (λ r. r >>= λ t. token_callbacks_execute t xs) first.2 ∙ rest.2,
        rest.3 ∙ first.3,
        rest.4,
      )
