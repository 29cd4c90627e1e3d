-- ===== src/Totemsrp/Node/Sending.antt =====
-- What orf_token_mcast of exec/totemsrp.c adds to the messages of the ring.
use corosync.Prelude.{
  ℕ, zero, suc, ◌+◌, ◌-◌, ◌≤◌, ◌<◌, ◌≡◌, refl, ap, sym, subst, ◌∙◌, false, Option, none, some, List,
  [], ◌∷◌, drop, inl, inr, ◌⊎◌, arith, ◌==◌, if◌then◌else◌, Bool-cases, add32, ◌++◌,
}
use mathlib.Core.List.{append-nil, append_assoc}
use corosync.CsQueue
use corosync.CsQueue.{CsQueue}
use corosync.CsQueue.Fifo
use corosync.CsQueue.Fifo.{contents, item_remove-contents, contents-is_empty}
use corosync.SortQueue
use corosync.SortQueue.{Sq, store}
use corosync.SortQueue.Ring.{offset}
use corosync.SortQueue.View.{view, item_add-view, store_keeps}
use corosync.Totemsrp.Multicast.{Ordering, after_send, send_messages}
use corosync.Totemsrp.Deliver.Window.{Shows, offset_at, offset_in, Shows-store}

-- The numbers and the `n` messages behind message `e`.
abbrev pub numbers : {A : Type 0} → ℕ → (ℕ → A) → ℕ → ℕ → List (ℕ × A)
numbers base ring e zero = []
numbers base ring e (suc n) = (add32 base (suc e), ring (suc e)) ∷ numbers base ring (suc e) n

suc_right : (e n : ℕ) → suc e + n ≡ e + suc n
suc_right e n = omega arith

-- The messages of a list come behind message `e` of the ring.
abbrev pub Follow : {A : Type 0} → (ℕ → A) → ℕ → List A → Type 0
Follow ring e [] = Unit {0}
Follow ring e (x ∷ xs) = (x ≡ ring (suc e)) × Follow ring (suc e) xs

module _ {A : Type 0} (ring : ℕ → A) (base h : ℕ) where
  -- The message `d` goes to its free place, and the places behind it stay.
  Stores : Sq A → ℕ → A → ℕ → Type 0
  Stores sq d x seq =
      (SortQueue.item_add sq x seq ≡ some (store sq x seq))
      × Shows ring base h (store sq x seq)
      × ((store sq x seq).size ≡ sq.size)
      × ((j : ℕ) → d < j → j < h + sq.size → view (store sq x seq) (j - h) ≡ view sq (j - h))

  distinct : (d j o : ℕ) → h ≤ d → d < j → o ≡ d - h → (j - h == o) ≡ false
  distinct d j o p q e = ground (arith, p, q, e)

  Stores-at :
      (sq : Sq A) (w : Shows ring base h sq) (d : ℕ)
      → h ≤ d
      → d < h + sq.size
      → view sq (d - h) ≡ none
      → Stores sq d (ring d) (add32 base d)
  unfolding Stores
  Stores-at sq w d lo hi free =
      let kept = store_keeps sq (ring d) (add32 base d) in
      let added =
        item_add-view sq (ring d) (add32 base d) w.valid (omega arith) (offset_in w d lo hi)
          (ap (view sq) (offset_at w d lo hi) ∙ free) in
      (
        added.0,
        Shows-store w d lo hi free,
        kept.1,
        λ j p q.
            added.2 (j - h) (omega (arith, q, lo, p))
            ∙ ap (λ b. if b then some (ring d) else view sq (j - h))
                (distinct d j (offset sq (add32 base d)) lo p (offset_at w d lo hi)),
      )

  -- What a number of turns has sent of the messages that wait, behind message `e`.
  pub record SendsOn (e n : ℕ) (s : Ordering A) (r : Option (Ordering A)) : Type 0 where
    pub state : Ordering A
    pub count : ℕ
    pub result : r ≡ some state
    pub within : count ≤ n
    pub shows : Shows ring base h state.sort_queue
    pub same_size : state.sort_queue.size ≡ s.sort_queue.size
    pub above :
        (d : ℕ) → e + count < d → d < h + s.sort_queue.size → view state.sort_queue (d - h) ≡ none
    pub number : state.token_seq ≡ add32 base (e + count)
    pub queue : Fifo.IsValid state.queue
    pub left : contents state.queue ≡ drop count (contents s.queue)
    pub sent : state.sent ≡ s.sent ++ numbers base ring e count
    pub same_aru : state.received.my_aru ≡ s.received.my_aru
    pub high :
        ((count ≡ 0)
          × (state.received.my_high_seq_received ≡ s.received.my_high_seq_received)
          × (state.sort_queue ≡ s.sort_queue))
        ⊎ (state.received.my_high_seq_received ≡ add32 base (e + count))

  none_sent :
      (e n : ℕ) (s : Ordering A)
      → Shows ring base h s.sort_queue
      → ((d : ℕ) → e < d → d < h + s.sort_queue.size → view s.sort_queue (d - h) ≡ none)
      → s.token_seq ≡ add32 base e
      → Fifo.IsValid s.queue
      → SendsOn e n s (some s)
  none_sent e n s w a t v = record {
    state = s;
    count = 0;
    result = refl;
    within = omega arith;
    shows = w;
    same_size = refl;
    above = λ d p q. a d (omega (arith, p)) q;
    number = omega (arith, t);
    queue = v;
    left = refl;
    sent = sym (append-nil s.sent);
    same_aru = refl;
    high = inl (refl, refl, refl);
  }

  one_sent :
      (e n : ℕ) (s : Ordering A) (q : CsQueue A) (sq : Sq A) (r : Option (Ordering A))
      → sq.size ≡ s.sort_queue.size
      → contents s.queue ≡ CsQueue.item_get s.queue ∷ contents q
      → add32 s.token_seq 1 ≡ add32 base (suc e)
      → CsQueue.item_get s.queue ≡ ring (suc e)
      → SendsOn (suc e) n (after_send s q sq) r
      → SendsOn e (suc n) s r
  one_sent e n s q sq r size c number first k = record {
    state = k.state;
    count = suc k.count;
    result = k.result;
    within = omega (arith, k.within);
    shows = k.shows;
    same_size = k.same_size ∙ size;
    above = λ d p b. k.above d (omega (arith, p)) (omega (arith, b, size));
    number = k.number ∙ ap (add32 base) (suc_right e k.count);
    queue = k.queue;
    left = k.left ∙ ap (drop (suc k.count)) (sym c);
    sent =
        k.sent
        ∙ append_assoc s.sent ((add32 s.token_seq 1, CsQueue.item_get s.queue) ∷ [])
            (numbers base ring (suc e) k.count)
        ∙ (λ i. s.sent ++ (number i, first i) ∷ numbers base ring (suc e) k.count);
    same_aru = k.same_aru;
    high = elim k.high [
      | inl (none_more, same, _) ↦ inr (same ∙ number ∙ ap (add32 base) (omega (arith, none_more)))
      | inr up ↦ inr (up ∙ ap (add32 base) (suc_right e k.count))
    ];
  }

  Stores-next :
      (sq : Sq A) (w : Shows ring base h sq) (d : ℕ) (x : A) (seq : ℕ)
      → x ≡ ring d
      → seq ≡ add32 base d
      → h ≤ d
      → d < h + sq.size
      → view sq (d - h) ≡ none
      → Stores sq d x seq
  Stores-next sq w d x seq at number lo hi free =
      subst (λ y. Stores sq d y seq) (sym at)
        (subst (Stores sq d (ring d)) (sym number) (Stores-at sq w d lo hi free))

  pub send_messages-SendsOn :
      (n e : ℕ) (s : Ordering A)
      → Shows ring base h s.sort_queue
      → ((d : ℕ) → e < d → d < h + s.sort_queue.size → view s.sort_queue (d - h) ≡ none)
      → s.token_seq ≡ add32 base e
      → Fifo.IsValid s.queue
      → Follow ring e (contents s.queue)
      → h ≤ suc e
      → e + n < h + s.sort_queue.size
      → SendsOn e n s (send_messages s n)
  unfolding send_messages Stores
  send_messages-SendsOn zero e s w a t v f lo hi = none_sent e 0 s w a t v
  send_messages-SendsOn (suc n) e s w a t v f lo hi = elim (Bool-cases (CsQueue.is_empty s.queue)) [
    | inl no_more ↦ rw no_more (none_sent e (suc n) s w a t v)
    | inr some_more ↦
        (let sq = s.sort_queue in
          let item = CsQueue.item_get s.queue in
          let seq = add32 s.token_seq 1 in
          let q = item_remove-contents s.queue v some_more in
          let follow : Follow ring e (item ∷ contents q.0) = subst (Follow ring e) q.3 f in
          let number : seq ≡ add32 base (suc e) = omega (arith, t) in
          let st =
            Stores-next sq w (suc e) item seq follow.0 number lo (omega (arith, hi))
              (a (suc e) (omega arith) (omega (arith, hi))) in
          let sq' = store sq item seq in
          rw (some_more, st.0, q.1)
            (one_sent e n s q.0 sq' _ st.2 q.3 number follow.0 (
              send_messages-SendsOn n (suc e) (after_send s q.0 sq') st.1
                (λ d p b.
                  st.3 d p (omega (arith, b, st.2))
                  ∙ a d (omega (arith, p)) (omega (arith, b, st.2)))
                number q.2 follow.1 (omega (arith, lo)) (omega (arith, hi, st.2)))))
  ]
