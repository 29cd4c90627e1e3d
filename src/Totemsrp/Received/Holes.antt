-- ===== src/Totemsrp/Received/Holes.antt =====
-- What update_aru of exec/totemsrp.c finds in the sort queue.
use corosync.Prelude.{
  ℕ, zero, suc, ◌+◌, ◌-◌, ◌≤◌, ◌<◌, ◌≡◌, refl, ap, ◌∙◌, sym, Option, none, some, Option-cases, inl,
  inr, arith, ltb, ltb→lt, Bool-cases, ◌⊎◌, subst, false, add32, sub32,
}
use corosync.SortQueue.{Sq, item_get}
use corosync.SortQueue.Ring.{IsValid, offset}
use corosync.SortQueue.View.{view, item_get-view}
use corosync.Totemsrp.Received.{Received, first_hole, update_aru}

same : (i j : ℕ) → i ≤ j → ltb i j ≡ false → i ≡ j
same i j p t = ground (arith, p, t)

module _ {A : Type 0} (sq : Sq A) (aru : ℕ) where
  -- The message `i` behind aru is there, and it is missing.
  abbrev pub IsHeld : ℕ → Type 0
  IsHeld i = (x : A) × (item_get sq (add32 aru i) ≡ some (some x))

  abbrev pub IsMissing : ℕ → Type 0
  IsMissing i = item_get sq (add32 aru i) ≡ some none

  -- The loop from `i` on ends at `k`.
  record Ends (n i : ℕ) (r : Option ℕ) : Type 0 where
    at : ℕ
    result : r ≡ some at
    from : i ≤ at
    upto : at ≤ i + n
    held : (j : ℕ) → i ≤ j → j < at → IsHeld j
    missing : at < i + n → IsMissing at

  module _ (valid : IsValid sq) where
    got :
        (i : ℕ)
        → offset sq (add32 aru i) < sq.size
        → item_get sq (add32 aru i) ≡ some (view sq (offset sq (add32 aru i)))
    got i h = item_get-view sq (add32 aru i) valid (omega arith) h

    first_hole-Ends :
        (n i : ℕ)
        → ((j : ℕ) → i ≤ j → j < i + n → offset sq (add32 aru j) < sq.size)
        → Ends n i (first_hole sq aru n i)
    unfolding first_hole
    first_hole-Ends zero i h = record {
      at = i;
      result = refl;
      from = omega arith;
      upto = omega arith;
      held = λ j p q. absurd (omega (arith, p, q));
      missing = λ p. absurd (omega (arith, p));
    }
    first_hole-Ends (suc n) i h =
        let g = got i (h i (omega arith) (omega arith)) in
        elim (Option-cases (view sq (offset sq (add32 aru i)))) [
          | inl e ↦ record {
            at = i;
            result = rw (g ∙ ap some e) refl;
            from = omega arith;
            upto = omega arith;
            held = λ j p q. absurd (omega (arith, p, q));
            missing = λ p. g ∙ ap some e;
          }
          | inr (x, e) ↦
              (let rest =
                  first_hole-Ends n (suc i) (λ j p q. h j (omega (arith, p)) (omega (arith, q))) in
                record {
                  at = rest.at;
                  result = rw (g ∙ ap some e) rest.result;
                  from = omega (arith, rest.from);
                  upto = omega (arith, rest.upto);
                  held = λ j p q. elim (Bool-cases (ltb i j)) [
                    | inl t ↦ rest.held j (ltb→lt i j t) q
                    | inr t ↦ subst (IsHeld) (same i j p t) (x, g ∙ ap some e)
                  ];
                  missing = λ p. rest.missing (omega (arith, p));
                })
        ]

-- update_aru moves my_aru to the last number in front of the first hole: every message up to it is there, and the
-- next one is missing, unless it is the highest that was received. No assertion fails when the numbers up to the
-- highest are in the window of the queue.
pub update_aru_lem :
    {A : Type 0} (s : Received) (sq : Sq A)
    → IsValid sq
    → ((j : ℕ)
        → 1 ≤ j
        → j ≤ sub32 s.my_high_seq_received s.my_aru
        → offset sq (add32 s.my_aru j) < sq.size)
    → (k : ℕ) × (update_aru s sq ≡ some (record s { my_aru = add32 s.my_aru k }))
      × (k ≤ sub32 s.my_high_seq_received s.my_aru)
      × ((j : ℕ) → 1 ≤ j → j ≤ k → IsHeld sq s.my_aru j)
      × ((k ≡ sub32 s.my_high_seq_received s.my_aru) ⊎ IsMissing sq s.my_aru (k + 1))
unfolding update_aru
update_aru_lem s sq v w =
    let range = sub32 s.my_high_seq_received s.my_aru in
    let l = first_hole-Ends sq s.my_aru v range 1 (λ j p q. w j p (omega (arith, q))) in
    let e : l.at - 1 + 1 ≡ l.at = omega (arith, l.from) in
    (
      l.at - 1,
      rw l.result refl,
      omega (arith, l.upto),
      λ j p q. l.held j p (omega (arith, q, e)),
      elim (Bool-cases (ltb (l.at - 1) range)) [
        | inl t ↦
            inr (subst (IsMissing sq s.my_aru) (sym e) (l.missing (omega (arith, ltb→lt _ _ t, e))))
        | inr t ↦ inl (same (l.at - 1) range (omega (arith, l.upto)) t)
      ],
    )
