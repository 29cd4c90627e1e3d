-- ===== src/Totemsrp/Retransmit/Missing.antt =====
-- The missing messages that orf_token_rtr of exec/totemsrp.c asks for, and what it sends again.
use corosync.Prelude.{
  ℕ, zero, suc, ◌+◌, ◌-◌, ◌≤◌, ◌<◌, ◌≡◌, refl, ap, sym, subst, ◌∙◌, true, false, none, some, List,
  ◌++◌, length, inl, inr, ◌⊎◌, arith, ltb, ltb→lt, lt→ltb, Bool-cases, add32, sub32,
}
use mathlib.Core.List.{append_assoc}
use corosync.SortQueue.{Sq, item_inuse, item_miss_count}
use corosync.SortQueue.View.{
  view, item_miss_count_keeps, item_miss_count_other, item_inuse_free, free_item_inuse,
}
use corosync.Totemsrp.Deliver.Window.{Shows, offset_at, offset_in, in_range_at}
use corosync.Totemsrp.Retransmit.{
  RtrItem, Rtr, is_requested, request, request_missing, orf_token_rtr,
}
use corosync.Totemsrp.Retransmit.Sent.{
  AllItems, AllItems-append, AllItems-map, IsWord, Answers, retransmit-Retransmits,
}
use corosync.Totemsrp.Retransmit.Requests.{
  Asked, IsRequest, same_list, request-Asked, request_lem, Requests, nothing_asked,
}

next : (i j : ℕ) → i ≤ j → ltb i j ≡ false → i ≡ j
next i j p t = ground (arith, p, t)

module _ (ring_rep ring_seq miss_count_const : ℕ) {A : Type 0} (ring : ℕ → A) (base h : ℕ) where
  one_turn :
      (d n i : ℕ) (sq sq' : Sq A) (items items' : List RtrItem) (r : Sq A × List RtrItem)
      → length items < 30
      → sq'.size ≡ sq.size
      → ((e : ℕ) → view sq' e ≡ view sq e)
      → ((j : ℕ)
          → i < j
          → j < suc (i + n)
          → (item_miss_count sq' (add32 base (d + j))).1
            ≡ (item_miss_count sq (add32 base (d + j))).1)
      → Asked (view sq (d + i - h) ≡ none) (add32 base (d + i)) items items'
      → (view sq (d + i - h) ≡ none
          → miss_count_const ≤ (item_miss_count sq (add32 base (d + i))).1
          → is_requested (add32 base (d + i)) items' ≡ true)
      → Requests ring_rep ring_seq miss_count_const ring base h d n (suc i) sq' items' r
      → Requests ring_rep ring_seq miss_count_const ring base h d (suc n) i sq items r
  one_turn d n i sq sq' items items' r room size same counts a first k = record {
    shows = k.shows;
    same_size = k.same_size ∙ size;
    same_view = λ e. k.same_view e ∙ same e;
    requested = a.more ++ k.requested;
    added = k.added ∙ ap (λ l. l ++ k.requested) a.added ∙ append_assoc items a.more k.requested;
    only =
        AllItems-append (IsRequest ring_rep ring_seq miss_count_const ring base h d (suc n) i sq)
          a.more k.requested
          (AllItems-map _ _ a.more (λ x p. (i, omega arith, omega arith, p.0, p.1)) a.only)
          (AllItems-map _ _ k.requested
            (λ x p.
              (p.0, omega (arith, p.1), omega (arith, p.2), p.3, sym (same (d + p.0 - h)) ∙ p.4))
            k.only);
    longer = omega (arith, a.longer, k.longer);
    full = λ l. k.full (omega (arith, room, a.by_one));
    words = λ w. k.words (a.words (omega arith) w);
    kept = λ seq e. k.kept seq (a.kept seq e);
    asked = λ j p q l v c. elim (Bool-cases (ltb i j)) [
      | inl t ↦
          k.asked j (ltb→lt i j t) (omega (arith, q)) l (same (d + j - h) ∙ v)
            (omega (arith, c, counts j (ltb→lt i j t) (omega (arith, q))))
      | inr t ↦
          (let e = next i j p t in
            subst (λ m. is_requested (add32 base (d + m)) r.1 ≡ true) e
              (k.kept (add32 base (d + i)) (
                first (ap (λ m. view sq (d + m - h)) e ∙ v) (
                  subst (λ m. miss_count_const ≤ (item_miss_count sq (add32 base (d + m))).1)
                    (sym e) c))))
    ];
  }

  taken :
      {sq : Sq A} (seq d : ℕ) (w : Shows ring base h sq)
      → h ≤ d
      → d < h + sq.size
      → item_inuse sq (add32 base d) ≡ true
      → view sq (d - h) ≡ none
      → ⊥
  taken {sq} seq d w lo hi there v =
      let free =
        free_item_inuse sq (add32 base d) w.valid (omega arith) (offset_in w d lo hi)
          (ap (view sq) (offset_at w d lo hi) ∙ v) in
      cc

  counted :
      {sq : Sq A} (w : Shows ring base h sq) (seq : ℕ)
      → Shows ring base h (item_miss_count sq seq).0
  counted {sq} w seq =
      let kept = item_miss_count_keeps sq seq w.valid in
      record {
        valid = kept.0;
        head_at = kept.1 ∙ w.head_at;
        agrees = λ d p q.
            subst (λ o. (o ≡ none) ⊎ (o ≡ some (ring d))) (sym (kept.3 (d - h)))
              (w.agrees d p (omega (arith, q, kept.2)));
      }

  counts :
      {sq : Sq A} (w : Shows ring base h sq) (d e : ℕ)
      → h ≤ d
      → d < h + sq.size
      → d < e
      → e < h + sq.size
      → (item_miss_count (item_miss_count sq (add32 base d)).0 (add32 base e)).1
        ≡ (item_miss_count sq (add32 base e)).1
  counts {sq} w d e lo hi p q =
      item_miss_count_other sq (add32 base d) (add32 base e) w.valid (omega arith) (omega arith)
        (offset_in w d lo hi) (offset_in w e (omega (arith, lo, p)) q)
        (λ same.
          absurd (
            omega
              (arith, same, offset_at w d lo hi, offset_at w e (omega (arith, lo, p)) q, lo, p)))

  request_missing-Requests :
      (n d i stored : ℕ) (sq : Sq A) (items : List RtrItem)
      → Shows ring base h sq
      → stored ≡ add32 base d
      → h ≤ d + i
      → d + i + n ≤ h + sq.size
      → Requests ring_rep ring_seq miss_count_const ring base h d n i sq items
          (request_missing ring_rep ring_seq miss_count_const stored n i sq items)
  unfolding request_missing
  request_missing-Requests zero d i stored sq items w o lo hi =
      nothing_asked ring_rep ring_seq miss_count_const ring base h d 0 i sq items w (inl refl)
  request_missing-Requests (suc n) d i stored sq items w o lo hi =
      elim (Bool-cases (ltb (length items) 30)) [
        | inr t ↦ rw t (
            nothing_asked ring_rep ring_seq miss_count_const ring base h d (suc n) i sq items w
              (inr t))
        | inl t ↦
            (let seq = add32 base (d + i) in
              let number : add32 stored i ≡ seq = omega (arith, o) in
              let in_queue : d + i < h + sq.size = omega (arith, hi) in
              let in_window = in_range_at w (d + i) lo in_queue in
              elim (Bool-cases (item_inuse sq seq)) [
                | inl there ↦
                    rw (number, t, in_window, there)
                      (one_turn d n i sq sq items items _ (ltb→lt _ _ t) refl (λ e. refl)
                        (λ j p q. refl)
                        (same_list ring_rep ring_seq miss_count_const (view sq (d + i - h) ≡ none)
                          seq items)
                        (λ v c. absurd (taken seq (d + i) w lo in_queue there v))
                        (request_missing-Requests n d (suc i) stored sq items w o
                          (omega (arith, lo)) (omega (arith, hi))))
                | inr missing ↦
                    (let kept = item_miss_count_keeps sq seq w.valid in
                      let free : view sq (d + i - h) ≡ none =
                        ap (view sq) (sym (offset_at w (d + i) lo in_queue))
                        ∙ item_inuse_free sq seq w.valid (omega arith)
                            (offset_in w (d + i) lo in_queue) missing in
                      let sq' = (item_miss_count sq seq).0 in
                      let count = (item_miss_count sq seq).1 in
                      rw (number, t, in_window, missing)
                        (one_turn d n i sq sq' items
                          (request ring_rep ring_seq miss_count_const count seq items) _
                          (ltb→lt _ _ t) kept.2 kept.3
                          (λ j p q.
                            counts w (d + i) (d + j) lo in_queue (omega (arith, p))
                              (omega (arith, q, hi)))
                          (request-Asked ring_rep ring_seq miss_count_const count seq items free)
                          (λ v c. request_lem ring_rep ring_seq miss_count_const count seq items c)
                          (request_missing-Requests n d (suc i) stored sq' _ (counted w seq) o
                            (omega (arith, lo)) (omega (arith, hi, kept.2)))))
              ])
      ]

  -- What the node has done with the list when it stands at message `d` and the token at message `e`.
  pub record Done (d e fcc_allowed : ℕ) (s t : Rtr A) : Type 0 where
    pub shows : Shows ring base h t.sort_queue
    pub same_size : t.sort_queue.size ≡ s.sort_queue.size
    pub same_view : (m : ℕ) → view t.sort_queue m ≡ view s.sort_queue m
    pub short : length t.rtr_list ≤ 30
    pub words : AllItems IsWord t.rtr_list
    pub again : List A
    pub sent : t.sent ≡ s.sent ++ again
    pub kept : List RtrItem
    pub all : length kept + length again ≡ length s.rtr_list
    pub within : length again ≤ fcc_allowed
    pub requested : List RtrItem
    pub list : t.rtr_list ≡ kept ++ requested
    pub only :
        AllItems
          (IsRequest ring_rep ring_seq miss_count_const ring base h d (e - d) 1 s.sort_queue)
          requested
    pub answered : Answers s.sort_queue ring_rep ring_seq fcc_allowed s.rtr_list kept again
    pub asked :
        (j : ℕ)
        → 1 ≤ j
        → j ≤ e - d
        → length t.rtr_list < 30
        → view s.sort_queue (d + j - h) ≡ none
        → miss_count_const ≤ (item_miss_count s.sort_queue (add32 base (d + j))).1
        → is_requested (add32 base (d + j)) t.rtr_list ≡ true

-- orf_token_rtr goes through the requests of the token in their order, as long as messages are allowed: a request of the
-- ring for a message that is in the sort queue leaves the list and the message is sent again, and all other requests
-- stay. Behind those it then asks for each message up to the token's number that the node misses, and has missed
-- often enough, unless the list is full, and for no message that it has; the list never has more entries than the token has room for. The messages
-- in the sort queue stay, and the assertions hold. This is for a node that stands at message `d` of the ring, the
-- token's number being that of message `e`, less than QUEUE_RTR_ITEMS_SIZE_MAX in front of it and in the window of the sort queue.
pub orf_token_rtr_lem :
    {A : Type 0} (ring : ℕ → A)
    (base h d e ring_rep ring_seq miss_count_const my_aru token_seq fcc_allowed : ℕ) (s : Rtr A)
    → Shows ring base h s.sort_queue
    → my_aru ≡ add32 base d
    → token_seq ≡ add32 base e
    → h ≤ suc d
    → d ≤ e
    → e < h + s.sort_queue.size
    → e < d + 16384
    → AllItems IsWord s.rtr_list
    → length s.rtr_list ≤ 30
    → (t : Rtr A) × (orf_token_rtr ring_rep ring_seq miss_count_const my_aru token_seq fcc_allowed s
        ≡ some t)
      × Done ring_rep ring_seq miss_count_const ring base h d e fcc_allowed s t
unfolding orf_token_rtr
orf_token_rtr_lem ring base h d e ring_rep ring_seq miss_count_const my_aru token_seq fcc_allowed s
      w at to lo le hi near words short =
    let sq = s.sort_queue in
    let first = retransmit-Retransmits sq ring_rep ring_seq w.valid fcc_allowed s.rtr_list words in
    let second =
      request_missing-Requests ring_rep ring_seq miss_count_const ring base h (e - d) d 1 my_aru sq
        first.kept w at (omega (arith, lo)) (omega (arith, le, hi)) in
    let range : sub32 token_seq my_aru ≡ e - d = omega (arith, at, to, le, near) in
    let less : ltb (e - d) 16384 ≡ true = lt→ltb (e - d) 16384 (omega (arith, near, le)) in
    let r = request_missing ring_rep ring_seq miss_count_const my_aru (e - d) 1 sq first.kept in
    (
      record { sort_queue = r.0; rtr_list = r.1; sent = s.sent ++ first.sent },
      rw (first.result, range, less) refl,
      record {
        shows = second.shows;
        same_size = second.same_size;
        same_view = second.same_view;
        short = second.full (omega (arith, first.all, short));
        words = second.words (first.words words);
        again = first.sent;
        sent = refl;
        kept = first.kept;
        all = first.all;
        within = first.within;
        requested = second.requested;
        list = second.added;
        only = second.only;
        answered = first.answered;
        asked = λ j p q l v c. second.asked j p (omega (arith, q)) l v c;
      },
    )
