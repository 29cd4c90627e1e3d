-- ===== src/Totemsrp/Deliver/Window.antt =====
-- The sort queue of exec/totemsrp.c as a window on the messages of a ring.
use corosync.Prelude.{
  ℕ, ◌+◌, ◌-◌, ◌≤◌, ◌<◌, ◌≡◌, refl, ap, ◌∙◌, true, none, some, arith, ◌⊎◌, false, inl, inr,
  Bool-cases, ◌==◌, ==→eq, subst, sym, if◌then◌else◌, add32,
}
use corosync.SortQueue.{Sq, in_range, item_get, item_inuse, store}
use corosync.SortQueue.Seq.{in_range_iff}
use corosync.SortQueue.Ring.{IsValid, offset}
use corosync.SortQueue.View.{view, item_get-view, item_inuse_free, item_add-view, store_keeps}

-- The window begins at message `h` of the ring, message `d` having the number add32 base d, and each place in it is
-- free or has the ring's message.
pub record Shows {A : Type 0} (ring : ℕ → A) (base h : ℕ) (sq : Sq A) : Type 0 where
  pub valid : IsValid sq
  pub head_at : sq.head_seqid ≡ add32 base h
  pub agrees :
      (d : ℕ)
      → h ≤ d
      → d < h + sq.size
      → (view sq (d - h) ≡ none) ⊎ (view sq (d - h) ≡ some (ring d))

module _ {A : Type 0} {ring : ℕ → A} {base h : ℕ} {sq : Sq A} (w : Shows ring base h sq) (d : ℕ)
    (lo : h ≤ d) (hi : d < h + sq.size) where
  pub offset_at : offset sq (add32 base d) ≡ d - h
  offset_at = omega (arith, w.head_at, w.valid.small, lo, hi)

  pub offset_in : offset sq (add32 base d) < sq.size
  offset_in = omega (arith, offset_at, lo, hi)

  pub in_range_at : in_range sq (add32 base d) ≡ true
  in_range_at =
      (in_range_iff sq (add32 base d) w.valid.word (omega arith) w.valid.small).1 offset_in

  pub item_get_at : item_get sq (add32 base d) ≡ some (view sq (d - h))
  item_get_at =
      item_get-view sq (add32 base d) w.valid (omega arith) offset_in
      ∙ ap (λ n. some (view sq n)) offset_at

  pub free_at : item_inuse sq (add32 base d) ≡ false → view sq (d - h) ≡ none
  free_at e =
      ap (view sq) (sym offset_at)
      ∙ item_inuse_free sq (add32 base d) w.valid (omega arith) offset_in e

  -- The message `d` in its place.
  pub Shows-store : view sq (d - h) ≡ none → Shows ring base h (store sq (ring d) (add32 base d))
  Shows-store free =
      let added =
        item_add-view sq (ring d) (add32 base d) w.valid (omega arith) offset_in
          (ap (view sq) offset_at ∙ free) in
      let kept = store_keeps sq (ring d) (add32 base d) in
      let t = store sq (ring d) (add32 base d) in
      record {
        valid = added.1;
        head_at = kept.0 ∙ w.head_at;
        agrees = λ e p q.
            let v : view t (e - h)
                ≡ (if e - h == offset sq (add32 base d) then some (ring d) else view sq (e - h)) =
              added.2 (e - h) (omega (arith, p, q, kept.1)) in
            elim (Bool-cases (e - h == offset sq (add32 base d))) [
              | inl same ↦ inr (
                  v
                  ∙ rw same
                      (ap (λ m. some (ring m)) (omega (arith, ==→eq _ _ same, offset_at, p, lo))))
              | inr other ↦
                  subst (λ o. (o ≡ none) ⊎ (o ≡ some (ring e))) (sym (v ∙ rw other refl))
                    (w.agrees e p (omega (arith, q, kept.1)))
            ];
      }
