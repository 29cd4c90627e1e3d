-- ===== src/Totemsrp/Node/Handled.antt =====
-- What message_handler_orf_token of exec/totemsrp.c keeps.
use corosync.Prelude.{
  ℕ, ◌+◌, ◌≡◌, refl, ap, sym, subst, ◌∙◌, Bool, true, false, Option, some, inl, inr, arith, ◌==◌,
  not, ◌&&◌, ◌||◌, if◌then◌else◌, Bool-cases, ◌>>=◌,
}
use mathlib.Core.List.{append-nil}
use corosync.SortQueue.{lte_compare}
use corosync.Totemsrp.Membership.{Instance, operational}
use corosync.Totemsrp.Deliver.{Mcast}
use corosync.Totemsrp.Node.{RingNode, OrfToken}
use corosync.Totemsrp.Node.Token.{
  Config, Arrivals, note_sequence, set_held, is_quiet, free_messages,
}
use corosync.Totemsrp.Node.Handler.{take_turn, accept_token, by_state, message_handler_orf_token}
use corosync.Totemsrp.Node.Window.{Outgoing, Ordered}
use corosync.Totemsrp.Node.Freed.{free_messages-Freed}
use corosync.Totemsrp.Node.Turns.{AreRecent, recv_flush-Keeps, token_callbacks_execute-Keeps}
use corosync.Totemsrp.Node.Taken.{Continues, Handles, Fits, take_turn-Handles}

module _ (c : Config) (operational_enter : RingNode → Option RingNode) (base : ℕ)
    (m : Instance) where
  stays :
      (ring : ℕ → Mcast) (q : Outgoing) (gone e : ℕ) (s : RingNode)
      → Ordered ring base m q gone e s
      → Continues ring base m q.multicasts e s
  stays ring q gone e s o = record {
    ring' = ring;
    outgoing = q;
    gone = gone;
    count = 0;
    last = e;
    last_at = omega arith;
    old = λ d p. refl;
    sent = sym (append-nil q.multicasts);
    ordered = o;
  }

  accept_token-Handles :
      (ring : ℕ → Mcast) (q : Outgoing) (gone e aru : ℕ) (arrivals : Arrivals) (token : OrfToken)
      (s : RingNode)
      → Fits c operational_enter base m gone e aru token
      → Ordered ring base m q gone e s
      → Handles ring base m q.multicasts e (accept_token c operational_enter arrivals token s)
  unfolding accept_token
  accept_token-Handles ring q gone e aru arrivals token s f o =
      elim (Bool-cases (
        not
          (token.ring_rep == s.membership.my_ring_rep && token.ring_seq == s.membership.my_ring_seq)
        || lte_compare token.token_seq s.turn.my_token_seq)) [
          | inl discarded ↦ rw discarded (s, refl, inl (stays ring q gone e s o))
          | inr accepted ↦
              (let called =
                  token_callbacks_execute-Keeps ring base m gone e q s arrivals.on_received o in
                let turn =
                  subst
                    (λ sent.
                      Handles ring base m sent e
                        (take_turn c operational_enter arrivals.on_sent token called.0))
                    called.3
                    (take_turn-Handles c operational_enter base m ring called.1 gone e aru
                      arrivals.on_sent token called.0 f called.4) in
                rw accepted (
                  turn.0,
                  ap (λ r. r >>= λ t. take_turn c operational_enter arrivals.on_sent token t)
                        called.2
                      ∙ turn.1,
                  turn.2,
                ))
        ]

  in_operational :
      (ring : ℕ → Mcast) (q : Outgoing) (gone e aru : ℕ) (arrivals : Arrivals) (token : OrfToken)
      (s : RingNode)
      → Fits c operational_enter base m gone e aru token
      → Ordered ring base m q gone e s
      → Handles ring base m q.multicasts e
          (by_state operational c operational_enter arrivals token s)
  unfolding by_state
  in_operational ring q gone e aru arrivals token s f o =
      let freed =
        free_messages-Freed ring base m q gone e aru s o (omega (arith, f.gone-aru)) f.aru-gone in
      let rest =
        accept_token-Handles ring q (gone + freed.more) e aru arrivals token freed.node
          (record {
            token_at = f.token_at;
            aru_at = f.aru_at;
            gone-aru = freed.upto f.gone-aru;
            aru-gone = omega (arith, f.aru-gone);
            near = omega (arith, f.near);
            words = f.words;
            short = f.short;
            wide = f.wide;
            settings = f.settings;
          })
          freed.ordered in
      (
        rest.0,
        ap (λ a. free_messages s a >>= λ t. accept_token c operational_enter arrivals token t)
              f.aru_at
            ∙ ap (λ r. r >>= λ t. accept_token c operational_enter arrivals token t) freed.result
            ∙ rest.1,
        rest.2,
      )

  discard_or :
      (ring : ℕ → Mcast) (q : Outgoing) (gone e : ℕ) (b : Bool) (s : RingNode) (r : Option RingNode)
      → Ordered ring base m q gone e s
      → Handles ring base m q.multicasts e r
      → Handles ring base m q.multicasts e (if b then some s else r)
  discard_or ring q gone e true s r o h = (s, refl, inl (stays ring q gone e s o))
  discard_or ring q gone e false s r o h = h

-- message_handler_orf_token ends, with no assertion failing, for the token of the last message `e` of the ring, when
-- its aru is not behind what the node has released and both are less than QUEUE_RTR_ITEMS_SIZE_MAX in front of that,
-- its retransmit list has no more than 30 entries, and the packets that come in before are messages of the ring, less
-- than QUEUE_RTR_ITEMS_SIZE_MAX in front of what is released or less than 2 ^ 31 behind it; max_messages and
-- window_size are together no more than QUEUE_RTR_ITEMS_SIZE_MAX, and window_size is not 0. Either the node fails to
-- receive and leaves for the GATHER state, or it has still delivered the first messages of the ring, in their order,
-- and the ring goes on behind `e` with the messages that the node has multicast.
pub message_handler_orf_token_lem :
    (c : Config) (operational_enter : RingNode → Option RingNode) (ring : ℕ → Mcast) (base : ℕ)
    (m : Instance) (q : Outgoing) (gone e aru : ℕ) (arrivals : Arrivals) (token : OrfToken)
    (s : RingNode)
    → Fits c operational_enter base m gone e aru token
    → AreRecent ring base m gone e arrivals.flushed
    → Ordered ring base m q gone e s
    → Handles ring base m q.multicasts e
        (message_handler_orf_token c operational_enter arrivals token s)
unfolding message_handler_orf_token
message_handler_orf_token_lem c operational_enter ring base m q gone e aru arrivals token s f a o =
    let t = recv_flush-Keeps ring base m gone e q (note_sequence s token) arrivals.flushed o a in
    let u = set_held t.0 (is_quiet c t.0) in
    let state : t.0.membership.memb_state ≡ operational =
      ap Instance.memb_state t.2.0.own ∙ t.2.0.state in
    let rest = in_operational c operational_enter base m ring q gone e aru arrivals token u f t.2 in
    discard_or c operational_enter base m ring q gone e s.membership.orf_token_discard s _ o (
      rest.0,
      ap
            (λ r. r >>= λ t.
              by_state t.membership.memb_state c operational_enter arrivals token
                (set_held t (is_quiet c t)))
            t.1
          ∙ ap (λ st. by_state st c operational_enter arrivals token u) state
          ∙ rest.1,
      rest.2,
    )
