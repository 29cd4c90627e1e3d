-- ===== src/Totemsrp/Retransmit/Requests.antt =====
-- What orf_token_rtr of exec/totemsrp.c asks for.
use corosync.Prelude.{
  ℕ, suc, ◌+◌, ◌-◌, ◌≤◌, ◌<◌, ◌≡◌, refl, sym, true, false, none, List, [], ◌∷◌, ◌++◌, length,
  length-append, inl, inr, ◌⊎◌, arith, ltb, Bool-cases, add32, u32_mod,
}
use mathlib.Core.List.{append-nil}
use corosync.SortQueue.{Sq, item_miss_count}
use corosync.SortQueue.View.{view}
use corosync.Totemsrp.Deliver.Window.{Shows}
use corosync.Totemsrp.Retransmit.{RtrItem, is_requested, request}
use corosync.Totemsrp.Retransmit.Sent.{AllItems, IsWord}

-- The list after a request, which is made only for a reason.
pub record Asked (why : Type 0) (seq : ℕ) (items : List RtrItem) (r : List RtrItem) : Type 0 where
  pub more : List RtrItem
  pub added : r ≡ items ++ more
  pub only : AllItems (λ x. (x.seq ≡ seq) × why) more
  pub longer : length items ≤ length r
  pub by_one : length r ≤ suc (length items)
  pub words : seq < u32_mod → AllItems IsWord items → AllItems IsWord r
  pub kept : (other : ℕ) → is_requested other items ≡ true → is_requested other r ≡ true

module _ (item : RtrItem) where
  is_requested-append :
      (seq : ℕ) (items : List RtrItem)
      → is_requested seq items ≡ true
      → is_requested seq (items ++ item ∷ []) ≡ true
  unfolding is_requested
  is_requested-append seq [] e = cc
  is_requested-append seq (x ∷ items) e = ground (arith, is_requested-append seq items)

  is_requested_last : (items : List RtrItem) → is_requested item.seq (items ++ item ∷ []) ≡ true
  unfolding is_requested
  is_requested_last [] = ground arith
  is_requested_last (x ∷ items) = ground (arith, is_requested_last items)

  words-append :
      (items : List RtrItem)
      → IsWord item
      → AllItems IsWord items
      → AllItems IsWord (items ++ item ∷ [])
  words-append [] w a = (w, tt)
  words-append (x ∷ items) w a = (a.0, words-append items w a.1)

module _ (ring_rep ring_seq miss_count_const : ℕ) where
  pub same_list : (why : Type 0) (seq : ℕ) (items : List RtrItem) → Asked why seq items items
  same_list why seq items = record {
    more = [];
    added = sym (append-nil items);
    only = tt;
    longer = omega arith;
    by_one = omega arith;
    words = λ w a. a;
    kept = λ other e. e;
  }

  pub request-Asked :
      {why : Type 0} (count seq : ℕ) (items : List RtrItem)
      → why
      → Asked why seq items (request ring_rep ring_seq miss_count_const count seq items)
  request-Asked {why} count seq items w = elim (Bool-cases (ltb count miss_count_const)) [
    | inl few ↦ rw few (same_list why seq items)
    | inr enough ↦ elim (Bool-cases (is_requested seq items)) [
      | inl old ↦ rw (enough, old) (same_list why seq items)
      | inr new ↦
          (let item : RtrItem = record { ring_rep = ring_rep; ring_seq = ring_seq; seq = seq } in
            rw (enough, new)
              record {
                more = item ∷ [];
                added = refl;
                only = ((refl, w), tt);
                longer = omega (arith, length-append items (item ∷ []));
                by_one = omega (arith, length-append items (item ∷ []));
                words = λ w a. words-append item items w a;
                kept = λ other e. is_requested-append item other items e;
              })
    ]
  ]

  pub request_lem :
      (count seq : ℕ) (items : List RtrItem)
      → miss_count_const ≤ count
      → is_requested seq (request ring_rep ring_seq miss_count_const count seq items) ≡ true
  request_lem count seq items enough =
      let e : ltb count miss_count_const ≡ false = ground (arith, enough) in
      elim (Bool-cases (is_requested seq items)) [
        | inl old ↦ rw (e, old) old
        | inr new ↦
            rw (e, new)
              (is_requested_last (record { ring_rep = ring_rep; ring_seq = ring_seq; seq = seq })
                items)
      ]

  module _ {A : Type 0} (ring : ℕ → A) (base h : ℕ) where
    -- A request for a message behind message `d` that is missing, from `i` on and for `n` turns.
    abbrev pub IsRequest : ℕ → ℕ → ℕ → Sq A → RtrItem → Type 0
    IsRequest d n i sq item =
        (j : ℕ) × (i ≤ j)
        × (j < i + n)
        × (item.seq ≡ add32 base (d + j))
        × (view sq (d + j - h) ≡ none)

    -- What the loop leaves, behind message `d` with `n` turns from `i` on: each message that is missing and has been
    -- missed often enough is asked for, unless the list is full.
    pub record Requests (d n i : ℕ) (sq : Sq A) (items : List RtrItem) (r : Sq A × List RtrItem)
        : Type 0 where
      pub shows : Shows ring base h r.0
      pub same_size : r.0.size ≡ sq.size
      pub same_view : (e : ℕ) → view r.0 e ≡ view sq e
      pub requested : List RtrItem
      pub added : r.1 ≡ items ++ requested
      pub only : AllItems (IsRequest d n i sq) requested
      pub longer : length items ≤ length r.1
      pub full : length items ≤ 30 → length r.1 ≤ 30
      pub words : AllItems IsWord items → AllItems IsWord r.1
      pub kept : (seq : ℕ) → is_requested seq items ≡ true → is_requested seq r.1 ≡ true
      pub asked :
          (j : ℕ)
          → i ≤ j
          → j < i + n
          → length r.1 < 30
          → view sq (d + j - h) ≡ none
          → miss_count_const ≤ (item_miss_count sq (add32 base (d + j))).1
          → is_requested (add32 base (d + j)) r.1 ≡ true

    pub nothing_asked :
        (d n i : ℕ) (sq : Sq A) (items : List RtrItem)
        → Shows ring base h sq
        → (n ≡ 0) ⊎ (ltb (length items) 30 ≡ false)
        → Requests d n i sq items (sq, items)
    nothing_asked d n i sq items w why = record {
      requested = [];
      added = sym (append-nil items);
      only = tt;
      shows = w;
      same_size = refl;
      same_view = λ e. refl;
      longer = omega arith;
      full = λ l. l;
      words = λ a. a;
      kept = λ seq e. e;
      asked = λ j p q l v c. elim why [
        | inl z ↦ absurd (omega (arith, z, p, q))
        | inr t ↦ absurd (ground (arith, t, l))
      ];
    }
