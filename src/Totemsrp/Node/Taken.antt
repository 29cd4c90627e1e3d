-- ===== src/Totemsrp/Node/Taken.antt =====
-- What the turn of a token of exec/totemsrp.c keeps.
use corosync.Prelude.{
  ℕ, ◌+◌, ◌≤◌, ◌<◌, ◌≡◌, refl, ap, sym, subst, ◌∙◌, Bool, Option, some, List, length, ◌++◌, inl,
  inr, ◌⊎◌, arith, ltb, ◌==◌, not, ◌&&◌, Bool-cases, add32, ◌>>=◌,
}
use corosync.CsQueue.Fifo.{contents}
use corosync.Totemsrp.Membership.{Instance}
use corosync.Totemsrp.Membership.Events.{fail_to_receive}
use corosync.Totemsrp.Flow.{fcc_calculate}
use corosync.Totemsrp.Deliver.{Mcast}
use corosync.Totemsrp.Retransmit.Sent.{AllItems, IsWord}
use corosync.Totemsrp.Node.{RingNode, OrfToken}
use corosync.Totemsrp.Node.Token.{
  Config, Submission, Passing, token_callbacks_execute, set_held, is_representative, calculate,
  keeps_held, update_flow, update_token_aru,
}
use corosync.Totemsrp.Node.Handler.{token_send, pass_on, finish_turn, send_new, take_turn}
use corosync.Totemsrp.Node.Window.{Outgoing, Ordered, deliver_received-Keeps}
use corosync.Totemsrp.Node.Turns.{KeepsAdding, token_callbacks_execute-Keeps}
use corosync.Totemsrp.Node.Sending.{numbers, Follow}
use corosync.Totemsrp.Node.Histories.{extend, extend_old, Follow-extend, Ordered-agree}
use corosync.Totemsrp.Node.Passes.{sent_on, not_recovery, Holds, resend-Holds, multicast-Sends}

-- A node has delivered the first messages of a ring that goes on from `ring` behind message `e`, with the messages behind
-- `e` that the node has multicast, after those of `before`.
pub record Continues (ring : ℕ → Mcast) (base : ℕ) (m : Instance) (before : List (ℕ × Mcast))
    (e : ℕ) (t : RingNode) : Type 0 where
  pub ring' : ℕ → Mcast
  pub outgoing : Outgoing
  pub gone : ℕ
  pub count : ℕ
  pub last : ℕ
  pub last_at : last ≡ e + count
  pub old : (d : ℕ) → d ≤ e → ring' d ≡ ring d
  pub sent : outgoing.multicasts ≡ before ++ numbers base ring' e count
  pub ordered : Ordered ring' base m outgoing gone last t

-- The handler ends, and the node goes on in the order or leaves for the GATHER state because it fails to receive.
abbrev pub Handles : (ℕ → Mcast) → ℕ → Instance → List (ℕ × Mcast) → ℕ → Option RingNode → Type 0
Handles ring base m before e r =
    (t : RingNode) × (r ≡ some t)
    × (Continues ring base m before e t ⊎ (t.membership ≡ fail_to_receive m))

module _ (c : Config) (operational_enter : RingNode → Option RingNode) (base : ℕ)
    (m : Instance) where
  pass_on-Keeps :
      (ring : ℕ → Mcast) (q : Outgoing) (gone e : ℕ) (forward_token : Bool)
      (on_sent : List Submission) (p : Passing)
      → Ordered ring base m q gone e p.node
      → KeepsAdding ring base m gone e q.multicasts
          (pass_on operational_enter forward_token on_sent p)
  unfolding pass_on
  pass_on-Keeps ring q gone e forward_token on_sent p o =
      let s = record p.node { turn = record p.node.turn { my_token_seq = p.token.token_seq } } in
      let token = record p.token { token_seq = add32 p.token.token_seq 1 } in
      let d = deliver_received-Keeps ring base m q gone e (token_send s token forward_token) o in
      let k = token_callbacks_execute-Keeps ring base m gone e q d.0 on_sent d.2 in
      rw (not_recovery ring base m q gone e p.node o.0)
        (k.0, k.1, ap (λ r. r >>= λ t. token_callbacks_execute t on_sent) d.1 ∙ k.2, k.3, k.4)

  continuing :
      (ring ring' : ℕ → Mcast) (before sent : List (ℕ × Mcast)) (gone e count : ℕ)
      (r : Option RingNode)
      → sent ≡ before ++ numbers base ring' e count
      → ((d : ℕ) → d ≤ e → ring' d ≡ ring d)
      → KeepsAdding ring' base m gone (e + count) sent r
      → Handles ring base m before e r
  continuing ring ring' before sent gone e count r all old k = (
    k.0,
    k.2,
    inl (record {
      ring' = ring';
      outgoing = k.1;
      gone = gone;
      count = count;
      last = e + count;
      last_at = refl;
      old = old;
      sent = k.3 ∙ all;
      ordered = k.4;
    }),
  )

  finish_turn-Handles :
      (ring ring' : ℕ → Mcast) (before : List (ℕ × Mcast)) (q : Outgoing) (gone e count : ℕ)
      (forward_token : Bool) (on_sent : List Submission) (p : Passing)
      → q.multicasts ≡ before ++ numbers base ring' e count
      → ((d : ℕ) → d ≤ e → ring' d ≡ ring d)
      → Ordered ring' base m q gone (e + count) p.node
      → Handles ring base m before e (finish_turn c operational_enter forward_token on_sent p)
  unfolding finish_turn
  finish_turn-Handles ring ring' before q gone e count forward_token on_sent p all old o =
      let failed = record p.node { membership = fail_to_receive p.node.membership } in
      elim (Bool-cases (
        ltb c.fail_to_recv_const p.node.turn.my_aru_count
        && p.token.aru_addr == p.node.membership.my_id)) [
          | inl t ↦ rw t (failed, refl, inr (ap fail_to_receive o.0.own))
          | inr t ↦ rw t (
              continuing ring ring' before _ gone e count _ all old
                (pass_on-Keeps ring' q gone (e + count) forward_token on_sent p o))
        ]

  relast :
      (ring : ℕ → Mcast) (q : Outgoing) (gone e aru : ℕ) (s : RingNode)
      → Ordered ring base m q gone e s
      → gone ≤ aru
      → aru < gone + 16384
      → Ordered ring base m q gone e (record s { my_last_aru = add32 base aru })
  relast ring q gone e aru s (o, exact) lo hi = (
    record {
      done = o.done;
      aru = o.aru;
      top = o.top;
      last_aru = aru;
      own = o.own;
      state = o.state;
      outgoing_at = o.outgoing_at;
      queue = o.queue;
      size = o.size;
      window = o.window;
      gone_at = o.gone_at;
      done_at = o.done_at;
      aru_at = o.aru_at;
      top_at = o.top_at;
      last_aru_at = refl;
      prefix = o.prefix;
      above = o.above;
      gone-done = o.gone-done;
      done-aru = o.done-aru;
      aru-top = o.aru-top;
      top-last = o.top-last;
      top-gone = o.top-gone;
      gone-last = lo;
      last-gone = hi;
    },
    exact,
  )

  -- The token of message `e` with the aru `aru`, and settings that fit the retransmit queue.
  pub record Fits (gone e aru : ℕ) (token : OrfToken) : Type 0 where
    pub token_at : token.seq ≡ add32 base e
    pub aru_at : token.aru ≡ add32 base aru
    pub gone-aru : gone ≤ aru
    pub aru-gone : aru < gone + 16384
    pub near : e < gone + 16384
    pub words : AllItems IsWord token.rtr_list
    pub short : length token.rtr_list ≤ 30
    pub wide : 0 < c.window_size
    pub settings : c.max_messages + c.window_size ≤ 16384

  calculate-Holds :
      (ring : ℕ → Mcast) (q : Outgoing) (gone e aru : ℕ) (token : OrfToken) (s : RingNode)
      → Fits gone e aru token
      → Ordered ring base m q gone e s
      → Holds ring base m q gone e c (calculate c s token)
  unfolding calculate fcc_calculate
  calculate-Holds ring q gone e aru token s f o = record {
    ordered = o;
    token_at = f.token_at;
    near = f.near;
    words = f.words;
    short = f.short;
    few = ground (arith, f.settings);
  }

  send_new-Handles :
      (ring ring' : ℕ → Mcast) (q : Outgoing) (gone e last_aru : ℕ) (on_sent : List Submission)
      (p : Passing)
      → Holds ring' base m q gone e c p
      → 0 < c.window_size
      → Follow ring' e (contents q.waiting)
      → ((d : ℕ) → d ≤ e → ring' d ≡ ring d)
      → Handles ring base m q.multicasts e (send_new c operational_enter on_sent last_aru p)
  unfolding send_new update_flow update_token_aru
  send_new-Handles ring ring' q gone e last_aru on_sent p h wide follow old =
      let held = keeps_held c p in
      let passing = record p { node = set_held p.node held } in
      let sends =
        multicast-Sends ring' base m q gone e c passing
          (record {
            ordered = h.ordered;
            token_at = h.token_at;
            near = h.near;
            words = h.words;
            short = h.short;
            few = h.few;
          })
          wide follow in
      let finished =
        finish_turn-Handles ring ring' q.multicasts
          (sent_on ring' base m q gone e sends.waiting sends.count) gone e sends.count
          (not (is_representative p.node && held)) on_sent
          (update_token_aru last_aru (update_flow sends.passing)) refl old sends.ordered in
      (
        finished.0,
        ap
              (λ r. r >>= λ q.
                finish_turn c operational_enter (not (is_representative p.node && held)) on_sent
                  (update_token_aru last_aru (update_flow q)))
              sends.result
            ∙ finished.1,
        finished.2,
      )

  pub take_turn-Handles :
      (ring : ℕ → Mcast) (q : Outgoing) (gone e aru : ℕ) (on_sent : List Submission)
      (token : OrfToken) (s : RingNode)
      → Fits gone e aru token
      → Ordered ring base m q gone e s
      → Handles ring base m q.multicasts e (take_turn c operational_enter on_sent token s)
  unfolding take_turn
  take_turn-Handles ring q gone e aru on_sent token s f o =
      let ring' = extend ring e (contents q.waiting) in
      let t = record s { my_last_aru = token.aru } in
      let noted : Ordered ring base m q gone e t =
        subst (λ a. Ordered ring base m q gone e (record s { my_last_aru = a })) (sym f.aru_at)
          (relast ring q gone e aru s o f.gone-aru f.aru-gone) in
      let holds = calculate-Holds ring' q gone e aru token t f (
        Ordered-agree ring ring' base m q gone e t noted
          (λ d p. sym (extend_old ring e d (contents q.waiting) p))) in
      let resent = resend-Holds ring' base m q gone e c (calculate c t token) holds in
      let rest =
        send_new-Handles ring ring' q gone e s.my_last_aru on_sent resent.0 resent.2 f.wide
          (Follow-extend ring e (contents q.waiting))
          (λ d p. extend_old ring e d (contents q.waiting) p) in
      (
        rest.0,
        ap (λ r. r >>= λ p. send_new c operational_enter on_sent s.my_last_aru p) resent.1 ∙ rest.1,
        rest.2,
      )
