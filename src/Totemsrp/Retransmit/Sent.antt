-- ===== src/Totemsrp/Retransmit/Sent.antt =====
-- What orf_token_rtr of exec/totemsrp.c sends again.
use corosync.Prelude.{
  ℕ, zero, suc, ◌+◌, ◌≤◌, ◌<◌, ◌≡◌, refl, ap, ◌∙◌, true, Option, none, some, Option-cases, List, [],
  ◌∷◌, ◌++◌, length, inl, inr, arith, Bool-cases, u32_mod, ◌>>=◌,
}
use corosync.SortQueue.{Sq, in_range}
use corosync.SortQueue.Seq.{in_range_iff}
use corosync.SortQueue.Ring.{IsValid, offset}
use corosync.SortQueue.View.{view, item_get-view}
use corosync.Totemsrp.Retransmit.{RtrItem, is_of_ring, orf_token_remcast, retransmit}

abbrev pub AllItems : (RtrItem → Type 0) → List RtrItem → Type 0
AllItems P [] = Unit {0}
AllItems P (x ∷ xs) = P x × AllItems P xs

pub AllItems-append :
    (P : RtrItem → Type 0) (xs ys : List RtrItem)
    → AllItems P xs
    → AllItems P ys
    → AllItems P (xs ++ ys)
AllItems-append P [] ys p q = q
AllItems-append P (x ∷ xs) ys p q = (p.0, AllItems-append P xs ys p.1 q)

pub AllItems-map :
    (P Q : RtrItem → Type 0) (xs : List RtrItem)
    → ((x : RtrItem) → P x → Q x)
    → AllItems P xs
    → AllItems Q xs
AllItems-map P Q [] f p = tt
AllItems-map P Q (x ∷ xs) f p = (f x p.0, AllItems-map P Q xs f p.1)

abbrev pub IsWord : RtrItem → Type 0
IsWord item = item.seq < u32_mod

module _ {A : Type 0} (sq : Sq A) (ring_rep ring_seq : ℕ) where
  -- A request of the ring for a message that is in the sort queue.
  abbrev pub CanAnswer : RtrItem → A → Type 0
  CanAnswer item m =
      (is_of_ring ring_rep ring_seq item ≡ true)
      × (offset sq item.seq < sq.size)
      × (view sq (offset sq item.seq) ≡ some m)

  -- With `left` messages allowed, the requests are answered in their order, as long as messages are allowed: those that
  -- can be answered leave the list, and their messages are sent; the others are kept.
  pub data Answers : ℕ → List RtrItem → List RtrItem → List A → Type 0 where
    no_requests : (left : ℕ) → Answers left [] [] []
    none_allowed : (items : List RtrItem) → Answers 0 items items []
    answer :
        (left : ℕ) (item : RtrItem) (m : A) (items kept : List RtrItem) (sent : List A)
        → CanAnswer item m
        → Answers left items kept sent
        → Answers (suc left) (item ∷ items) kept (m ∷ sent)
    keep :
        (left : ℕ) (item : RtrItem) (items kept : List RtrItem) (sent : List A)
        → ((m : A) → CanAnswer item m → ⊥)
        → Answers (suc left) items kept sent
        → Answers (suc left) (item ∷ items) (item ∷ kept) sent

  -- What is kept and what is sent.
  pub record Retransmits (left : ℕ) (items : List RtrItem) (r : Option (List RtrItem × List A))
      : Type 0 where
    pub kept : List RtrItem
    pub sent : List A
    pub result : r ≡ some (kept, sent)
    pub all : length kept + length sent ≡ length items
    pub within : length sent ≤ left
    pub words : AllItems IsWord items → AllItems IsWord kept
    pub answered : Answers left items kept sent

  keep_item :
      (left : ℕ) (item : RtrItem) (items : List RtrItem) (r : Option (List RtrItem × List A))
      → ((m : A) → CanAnswer item m → ⊥)
      → Retransmits (suc left) items r
      → Retransmits (suc left) (item ∷ items) (r >>= λ r. some (item ∷ r.0, r.1))
  keep_item left item items r u k = record {
    kept = item ∷ k.kept;
    sent = k.sent;
    result = ap (λ o. o >>= λ r. some (item ∷ r.0, r.1)) k.result;
    all = omega (arith, k.all);
    within = k.within;
    words = λ w. (w.0, k.words w.1);
    answered = keep left item items k.kept k.sent u k.answered;
  }

  send_item :
      (left : ℕ) (item : RtrItem) (m : A) (items : List RtrItem)
      (r : Option (List RtrItem × List A))
      → CanAnswer item m
      → Retransmits left items r
      → Retransmits (suc left) (item ∷ items) (r >>= λ r. some (r.0, m ∷ r.1))
  send_item left item m items r c k = record {
    kept = k.kept;
    sent = m ∷ k.sent;
    result = ap (λ o. o >>= λ r. some (r.0, m ∷ r.1)) k.result;
    all = omega (arith, k.all);
    within = omega (arith, k.within);
    words = λ w. k.words w.1;
    answered = answer left item m items k.kept k.sent c k.answered;
  }

  module _ (valid : IsValid sq) where
    -- orf_token_remcast finds what the sort queue has.
    record Found (seq : ℕ) : Type 0 where
      message : Option A
      result : orf_token_remcast sq seq ≡ some message
      held :
          (m : A)
          → message ≡ some m
          → (offset sq seq < sq.size) × (view sq (offset sq seq) ≡ some m)
      missing : message ≡ none → offset sq seq < sq.size → view sq (offset sq seq) ≡ none

    remcast-Found : (seq : ℕ) → seq < u32_mod → Found seq
    unfolding orf_token_remcast
    remcast-Found seq w = elim (Bool-cases (in_range sq seq)) [
      | inl e ↦
          (let inside = (in_range_iff sq seq valid.word w valid.small).0 e in
            record {
              message = view sq (offset sq seq);
              result = rw e (item_get-view sq seq valid w inside);
              held = λ m h. (inside, h);
              missing = λ h p. h;
            })
      | inr e ↦ record {
        message = none;
        result = rw e refl;
        held = λ m h. cc;
        missing = λ h p. (let there = (in_range_iff sq seq valid.word w valid.small).1 p in cc);
      }
    ]

    pub retransmit-Retransmits :
        (left : ℕ) (items : List RtrItem)
        → AllItems IsWord items
        → Retransmits left items (retransmit sq ring_rep ring_seq left items)
    unfolding retransmit
    retransmit-Retransmits left [] w = record {
      kept = [];
      sent = [];
      result = refl;
      all = omega arith;
      within = omega arith;
      words = λ w. w;
      answered = no_requests left;
    }
    retransmit-Retransmits zero (item ∷ items) w = record {
      kept = item ∷ items;
      sent = [];
      result = refl;
      all = omega arith;
      within = omega arith;
      words = λ w. w;
      answered = none_allowed (item ∷ items);
    }
    retransmit-Retransmits (suc left) (item ∷ items) w =
        let found = remcast-Found item.seq w.0 in
        let keeps = λ (u : (m : A) → CanAnswer item m → ⊥).
          keep_item left item items _ u (retransmit-Retransmits (suc left) items w.1) in
        elim (Bool-cases (is_of_ring ring_rep ring_seq item)) [
          | inl own ↦ elim (Option-cases found.message) [
            | inl missing ↦
                (let e = found.result ∙ ap some missing in
                  rw (own, e)
                    (keeps
                      (λ m c. (let gone = found.missing missing c.1 in let there = c.2 in cc))))
            | inr (m, held) ↦
                (let there = found.held m held in
                  rw (own, found.result ∙ ap some held)
                    (send_item left item m items _ (own, there.0, there.1)
                      (retransmit-Retransmits left items w.1)))
          ]
          | inr other ↦ rw other (keeps (λ m c. (let own = c.0 in cc)))
        ]
