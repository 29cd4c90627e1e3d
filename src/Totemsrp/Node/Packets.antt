-- ===== src/Totemsrp/Node/Packets.antt =====
-- What message_handler_mcast of exec/totemsrp.c makes of a message of the ring.
use corosync.Prelude.{
  ℕ, suc, ◌+◌, ◌-◌, ◌^◌, ◌≤◌, ◌<◌, ◌≡◌, refl, ap, sym, ◌∙◌, Bool, true, false, not, Option, none,
  some, inl, inr, arith, ltb, ◌==◌, eq→==, if◌then◌else◌, Bool-cases, add32, ◌>>=◌,
}
use corosync.SortQueue.{in_range, item_inuse, store, lt_compare}
use corosync.SortQueue.Seq.{lt_compare_near, in_range_iff}
use corosync.SortQueue.Ring.{offset}
use corosync.SortQueue.View.{view, item_add-view, store_keeps}
use corosync.Totemsrp.Membership.{Instance}
use corosync.Totemsrp.Received.{Received, update_aru}
use corosync.Totemsrp.Deliver.{Mcast}
use corosync.Totemsrp.Deliver.Window.{offset_at, offset_in, free_at, Shows-store}
use corosync.Totemsrp.Node.{
  RingNode, McastPacket, is_recovery, sort_queue_in, is_wanted, raise_high, deliver_received,
  keep_message, note_received, message_handler_mcast,
}
use corosync.Totemsrp.Node.Window.{
  Outgoing, Placed, Ordered, Keeps, deliver_received-Keeps, update_aru-Keeps,
}

-- The packet with message `d` of the ring.
abbrev pub message_packet : (ℕ → Mcast) → ℕ → Instance → ℕ → McastPacket
message_packet ring base m d = record {
  seq = add32 base d;
  ring_rep = m.my_ring_rep;
  ring_seq = m.my_ring_seq;
  encapsulated = false;
  mcast = ring d;
}

module _ (ring : ℕ → Mcast) (base : ℕ) (m : Instance) (q : Outgoing) (gone e : ℕ) where
  note_received-Keeps :
      (s : RingNode) → Placed ring base m q gone e s → Keeps ring base m q gone e (note_received s)
  unfolding note_received
  note_received-Keeps s o =
      let u = update_aru-Keeps ring base m q gone e s o in
      let d = deliver_received-Keeps ring base m q gone e (record s { received = u.0 }) u.2 in
      let chosen : sort_queue_in s ≡ s.regular_sort_queue =
        ap (λ m. if is_recovery m then s.recovery_sort_queue else s.regular_sort_queue)
          (ap Instance.memb_state o.own ∙ o.state) in
      (
        d.0,
        ap (λ sq. update_aru s.received sq >>= λ r. deliver_received (record s { received = r }))
              chosen
            ∙ ap (λ e. e >>= λ r. deliver_received (record s { received = r })) u.1
            ∙ d.1,
        d.2,
      )

  -- The highest number after message `d`.
  abbrev higher : ℕ → ℕ → ℕ → ℕ
  higher from top d = if ltb (top - from) (d - from) then d else top

  raise_high_at :
      (b : Bool) (r : Received) (top d : ℕ)
      → r.my_high_seq_received ≡ add32 base top
      → (if b then (record r { my_high_seq_received = add32 base d }) else r)
        ≡ (record r { my_high_seq_received = add32 base (if b then d else top) })
  raise_high_at true r top d e = refl
  raise_high_at false r top d e = λ i. record { my_aru = r.my_aru; my_high_seq_received = e i }

  raise_high_lem :
      (r : Received) (gone top d : ℕ)
      → r.my_high_seq_received ≡ add32 base top
      → gone ≤ top
      → gone ≤ d
      → top < gone + 16384
      → d < gone + 16384
      → raise_high r (add32 base d)
        ≡ (record r { my_high_seq_received = add32 base (higher gone top d) })
  raise_high_lem r gone top d e a b p q =
      let near =
        lt_compare_near (add32 base gone) (top - gone) (d - gone) (omega arith)
          (omega (arith, a, p)) (omega (arith, b, q)) in
      let t : add32 (add32 base gone) (top - gone) ≡ r.my_high_seq_received = omega (arith, e, a) in
      let u : add32 (add32 base gone) (d - gone) ≡ add32 base d = omega (arith, b) in
      let test : lt_compare r.my_high_seq_received (add32 base d) ≡ ltb (top - gone) (d - gone) =
        ap (λ x. lt_compare x (add32 base d)) (sym t)
        ∙ ap (lt_compare (add32 (add32 base gone) (top - gone))) (sym u)
        ∙ near in
      ap (λ x. if x then (record r { my_high_seq_received = add32 base d }) else r) test
      ∙ raise_high_at (ltb (top - gone) (d - gone)) r top d e

  not_stored :
      {A : Type 0} (e f : ℕ) (x y : Option A)
      → (e == f) ≡ false
      → y ≡ none
      → (if e == f then x else y) ≡ none
  not_stored e f x y t u = ap (λ b. if b then x else y) t ∙ u

  other_place :
      (gone top d e o : ℕ)
      → gone < d
      → gone ≤ top
      → higher gone top d < e
      → o ≡ d - suc gone
      → (top < e) × ((e - suc gone == o) ≡ false)
  other_place gone top d e o lo le p at = (ground (arith, lo, le, p), ground (arith, lo, le, p, at))

  keep_message-Placed :
      (s : RingNode) (o : Placed ring base m q gone e s) (d : ℕ)
      → gone < d
      → d < gone + 16384
      → d ≤ e
      → view s.regular_sort_queue (d - suc gone) ≡ none
      → (t : RingNode) × (keep_message s (message_packet ring base m d) ≡ some t)
        × Placed ring base m q gone e t
  unfolding keep_message
  keep_message-Placed s o d lo hi below_last free =
      let sq = s.regular_sort_queue in
      let kept = store_keeps sq (ring d) (add32 base d) in
      let top = higher gone o.top d in
      let in_window : d < suc gone + sq.size = omega (arith, hi, o.size) in
      let added =
        item_add-view sq (ring d) (add32 base d) o.window.valid (omega arith)
          (offset_in o.window d lo in_window)
          (ap (view sq) (offset_at o.window d lo in_window) ∙ free) in
      let below : gone ≤ o.top = omega (arith, o.gone-done, o.done-aru, o.aru-top) in
      let raised =
        raise_high_lem s.received gone o.top d o.top_at
          (omega (arith, o.gone-done, o.done-aru, o.aru-top)) (omega (arith, lo)) o.top-gone hi in
      let t = record s {
        received = raise_high s.received (add32 base d);
        regular_sort_queue = store sq (ring d) (add32 base d);
      } in
      let placed : Placed ring base m q gone e t = record {
        done = o.done;
        aru = o.aru;
        top = top;
        last_aru = o.last_aru;
        own = o.own;
        state = o.state;
        queue = o.queue;
        outgoing_at = o.outgoing_at;
        size = (store_keeps sq (ring d) (add32 base d)).1 ∙ o.size;
        window = Shows-store o.window d lo in_window free;
        gone_at = o.gone_at;
        done_at = o.done_at;
        aru_at = ap Received.my_aru raised ∙ o.aru_at;
        top_at = ap Received.my_high_seq_received raised;
        last_aru_at = o.last_aru_at;
        prefix = o.prefix;
        above = λ j p q.
            let other =
              other_place gone o.top d j (offset sq (add32 base d)) lo below p
                (offset_at o.window d lo in_window) in
            added.2 (j - suc gone) (omega (arith, other.0, below, q, kept.1))
            ∙ not_stored (j - suc gone) (offset sq (add32 base d)) _ _ other.1
                (o.above j other.0 (omega (arith, q, kept.1)));
        gone-done = o.gone-done;
        done-aru = o.done-aru;
        top-last = ground (arith, o.top-last, below_last);
        aru-top = ground (arith, o.aru-top, lo, o.gone-done, o.done-aru);
        top-gone = ground (arith, o.top-gone, hi);
        gone-last = o.gone-last;
        last-gone = o.last-gone;
      } in
      (t, rw added.0 refl, placed)

  keep_and_note :
      (s : RingNode) (p : McastPacket)
      → (t : RingNode) × (keep_message s p ≡ some t) × Placed ring base m q gone e t
      → Keeps ring base m q gone e (keep_message s p >>= λ t. note_received t)
  keep_and_note s p (t, e, o) =
      let n = note_received-Keeps t o in (n.0, ap (λ r. r >>= λ t. note_received t) e ∙ n.1, n.2)

  chosen_same :
      (s : RingNode) (o : Ordered ring base m q gone e s) (b : Bool) (r : Option RingNode)
      → Keeps ring base m q gone e r
      → Keeps ring base m q gone e (if not b then some s else r)
  chosen_same s o true r k = k
  chosen_same s o false r k = (s, refl, o)

  -- A message of the ring, behind the last one released by less than 2 ^ 31 or in front of it by less than
  -- QUEUE_RTR_ITEMS_SIZE_MAX, keeps the order, whether it is new or not.
  pub message_handler_mcast-Keeps :
      (s : RingNode) (o : Ordered ring base m q gone e s) (d : ℕ) (buffer : Bool)
      → gone < d + 2 ^ 31
      → d < gone + 16384
      → d ≤ e
      → Keeps ring base m q gone e (message_handler_mcast s (message_packet ring base m d) buffer)
  unfolding message_handler_mcast
  message_handler_mcast-Keeps s o d buffer lo hi last =
      let sq = s.regular_sort_queue in
      let p = message_packet ring base m d in
      let rep = eq→== m.my_ring_rep _ (sym (ap Instance.my_ring_rep o.0.own)) in
      let seq = eq→== m.my_ring_seq _ (sym (ap Instance.my_ring_seq o.0.own)) in
      elim (Bool-cases (is_wanted s p)) [
        | inl wanted ↦
            (let within : in_range sq (add32 base d) ≡ true = ground (arith, wanted) in
              let unused : item_inuse sq (add32 base d) ≡ false = ground (arith, wanted) in
              let near =
                (in_range_iff sq (add32 base d) o.0.window.valid.word (omega arith)
                    o.0.window.valid.small).0
                  within in
              let behind : gone < d = omega (arith, near, o.0.window.head_at, o.0.size, lo, hi) in
              let free = free_at o.0.window d behind (omega (arith, hi, o.0.size)) unused in
              rw (rep, seq, wanted)
                (chosen_same s o buffer _
                  (keep_and_note s p (keep_message-Placed s o.0 d behind hi last free))))
        | inr unwanted ↦ rw (rep, seq, unwanted) (note_received-Keeps s o.0)
      ]
