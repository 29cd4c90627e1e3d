-- ===== src/Totemsrp/Multicast/Order.antt =====
-- The order and the numbers of the messages that a node of exec/totemsrp.c sends.
use corosync.Prelude.{
  ℕ, zero, suc, ◌^◌, ◌≤◌, ◌<◌, ◌≡◌, refl, ap, ◌∙◌, sym, false, Option, none, some, List, [], ◌∷◌,
  ◌++◌, take, drop, inl, inr, Bool-cases, arith, ◌==◌, ne→==_false, add32, sub32, u32_mod,
}
use mathlib.Core.List.{append-nil, append_assoc}
use corosync.CsQueue
use corosync.CsQueue.{CsQueue}
use corosync.CsQueue.Fifo.{contents, item_remove-contents, contents-is_empty}
use corosync.CsQueue.Fifo
use corosync.SortQueue.{Sq, store}
use corosync.SortQueue.Ring
use corosync.SortQueue.Ring.{offset}
use corosync.SortQueue.View.{view, item_add-view, store_keeps}
use corosync.Totemsrp.Multicast.{Ordering, after_send, send_messages}

next_number : (seq j : ℕ) → add32 (add32 seq 1) j ≡ add32 seq (suc j)
next_number seq j = omega arith

-- Numbers in the window are at different distances from its head.
apart :
    (head seq j : ℕ)
    → head < u32_mod
    → 1 ≤ j
    → j < 2 ^ 31
    → sub32 (add32 seq (suc j)) head ≡ sub32 (add32 seq 1) head
    → ⊥
apart head seq j w p q e = absurd (omega (arith, w, p, q, e))

module _ {A : Type 0} where
  -- Messages with the numbers behind `seq`.
  abbrev pub numbered : ℕ → List A → List (ℕ × A)
  numbered seq [] = []
  numbered seq (m ∷ ms) = (add32 seq 1, m) ∷ numbered (add32 seq 1) ms

  -- The next `n` places of the sort queue are in its window and free.
  abbrev pub InRoom : Sq A → ℕ → ℕ → Type 0
  InRoom sq seq n =
      (j : ℕ)
      → 1 ≤ j
      → j ≤ n
      → (offset sq (add32 seq j) < sq.size) × (view sq (offset sq (add32 seq j)) ≡ none)

  InRoom-store :
      (sq : Sq A) (item : A) (seq n : ℕ)
      → Ring.IsValid sq
      → n < 2 ^ 31
      → InRoom sq seq (suc n)
      → InRoom (store sq item (add32 seq 1)) (add32 seq 1) n
  InRoom-store sq item seq n v b h j p q =
      let a = h 1 (omega arith) (omega arith) in
      let k = h (suc j) (omega arith) (omega (arith, q)) in
      let w =
        (item_add-view sq item (add32 seq 1) v (omega arith) a.0 a.1).2
          (offset sq (add32 seq (suc j))) k.0 in
      let t = store sq item (add32 seq 1) in
      let o : offset t (add32 (add32 seq 1) j) ≡ offset sq (add32 seq (suc j)) =
        ap (λ m. sub32 m t.head_seqid) (next_number seq j)
        ∙ ap (λ m. sub32 (add32 seq (suc j)) m) (store_keeps sq item (add32 seq 1)).0 in
      let f : (offset sq (add32 seq (suc j)) == offset sq (add32 seq 1)) ≡ false =
        ne→==_false _ _ (apart sq.head_seqid seq j v.word p (omega (arith, q, b))) in
      (omega (arith, k.0, o, (store_keeps sq item (add32 seq 1)).1), ap (view t) o ∙ w ∙ rw f k.1)

  -- What a number of turns has sent.
  record Sends (s : Ordering A) (n : ℕ) (r : Option (Ordering A)) : Type 0 where
    pub state : Ordering A
    pub result : r ≡ some state
    pub in_order : state.sent ≡ s.sent ++ numbered s.token_seq (take n (contents s.queue))
    pub left : contents state.queue ≡ drop n (contents s.queue)
    pub queue_valid : Fifo.IsValid state.queue
    pub sort_valid : Ring.IsValid state.sort_queue

  send_messages-Sends :
      (n : ℕ) (s : Ordering A)
      → Fifo.IsValid s.queue
      → Ring.IsValid s.sort_queue
      → n < 2 ^ 31
      → InRoom s.sort_queue s.token_seq n
      → Sends s n (send_messages s n)
  unfolding send_messages
  send_messages-Sends zero s v w b h = record {
    state = s;
    result = refl;
    in_order = sym (append-nil s.sent);
    left = refl;
    queue_valid = v;
    sort_valid = w;
  }
  send_messages-Sends (suc n) s v w b h = elim (Bool-cases (CsQueue.is_empty s.queue)) [
    | inl e ↦
        (rw (e) record {
          state = s;
          result = refl;
          in_order = rw (contents-is_empty s.queue e) (sym (append-nil s.sent));
          left = rw (contents-is_empty s.queue e) refl;
          queue_valid = v;
          sort_valid = w;
        })
    | inr e ↦
        (let a =
            item_add-view s.sort_queue (CsQueue.item_get s.queue) (add32 s.token_seq 1) w
              (omega arith) (h 1 (omega arith) (omega arith)).0
              (h 1 (omega arith) (omega arith)).1 in
          let q = item_remove-contents s.queue v e in
          let sq = store s.sort_queue (CsQueue.item_get s.queue) (add32 s.token_seq 1) in
          let rest = send_messages-Sends n (after_send s q.0 sq) q.2 a.1 (omega (arith, b)) (
            InRoom-store s.sort_queue (CsQueue.item_get s.queue) s.token_seq n w (omega (arith, b))
              h) in
          record {
            state = rest.state;
            result = rw (e, a.0, q.1) rest.result;
            in_order = rw q.3 (
                rest.in_order
                ∙ append_assoc s.sent ((add32 s.token_seq 1, CsQueue.item_get s.queue) ∷ [])
                    (numbered (add32 s.token_seq 1) (take n (contents q.0))));
            left = rw q.3 rest.left;
            queue_valid = rest.queue_valid;
            sort_valid = rest.sort_valid;
          })
  ]

-- When it has the token and the next numbers are free in the window of the sort queue, a node sends the messages
-- that wait longest, as many as it may, in their order and with the next numbers one after the other; just these
-- leave the queue. No assertion fails.
pub send_messages_lem :
    {A : Type 0} (s : Ordering A) (n : ℕ)
    → Fifo.IsValid s.queue
    → Ring.IsValid s.sort_queue
    → n < 2 ^ 31
    → InRoom s.sort_queue s.token_seq n
    → (t : Ordering A) × (send_messages s n ≡ some t)
      × (t.sent ≡ s.sent ++ numbered s.token_seq (take n (contents s.queue)))
      × (contents t.queue ≡ drop n (contents s.queue))
      × Fifo.IsValid t.queue
      × Ring.IsValid t.sort_queue
send_messages_lem s n v w b h =
    let r = send_messages-Sends n s v w b h in
    (r.state, r.result, r.in_order, r.left, r.queue_valid, r.sort_valid)
