-- ===== src/Totemsrp/Deliver/Transitional.antt =====
-- The delivery at a configuration change of exec/totemsrp.c, which skips what is missing.
use corosync.Prelude.{
  ℕ, zero, suc, ◌+◌, ◌-◌, ◌≤◌, ◌<◌, ◌≡◌, refl, sym, ap, ◌∙◌, Bool, true, false, not, ◌&&◌, Option,
  none, some, Option-cases, List, [], ◌∷◌, ◌++◌, inl, inr, arith, ltb, lt→ltb, if◌then◌else◌, add32,
  sub32,
}
use mathlib.Core.List.{append-nil, append_assoc}
use corosync.SortQueue.{Sq, in_range, item_get}
use corosync.SortQueue.View.{view}
use corosync.Totemsrp.Sets.{memb_set_subset}
use corosync.Totemsrp.Deliver.{
  Mcast, Delivery, Delivering, delivery, pass, deliver_messages, messages_deliver_to_app,
}
use corosync.Totemsrp.Deliver.Window.{Shows, in_range_at, item_get_at}

-- The deliveries of the messages that are there, of the `n` behind message `d`, and come from a node of the list.
pub from_members : Sq Mcast → List ℕ → ℕ → ℕ → ℕ → List Delivery
from_members sq memb h d zero = []
from_members sq memb h d (suc n) =
    elim (view sq (suc d - h)) [
      | none ↦ []
      | some m ↦ if memb_set_subset (m.system_from ∷ []) memb then delivery m ∷ [] else []
    ]
    ++ from_members sq memb h (suc d) n

zero_right : (d : ℕ) → d ≡ d + 0
zero_right d = omega arith

suc_right : (d n : ℕ) → suc d + n ≡ d + suc n
suc_right d n = omega arith

module _ (ring : ℕ → Mcast) (base h : ℕ) (sq : Sq Mcast) (memb : List ℕ) where
  -- What is delivered for a message.
  passed :
      (b : Bool) (seq : ℕ) (m : Mcast) (s : Delivering)
      → (if true && not b then s.delivered else s.delivered ++ delivery m ∷ [])
        ≡ s.delivered ++ (if b then delivery m ∷ [] else [])
  passed true seq m s = refl
  passed false seq m s = sym (append-nil s.delivered)

  end_of : ℕ → ℕ → List Delivery → Option Delivering
  end_of d n delivered =
      some (record { my_high_delivered = add32 base (d + n); delivered = delivered })

  skip_messages_lem :
      Shows ring base h sq
      → (n e d k stored : ℕ) (s : Delivering) → stored ≡ add32 base d
      → d + k ≡ e
      → h ≤ suc e
      → e + n < h + sq.size
      → s.my_high_delivered ≡ add32 base e
      → deliver_messages sq true memb stored n (suc k) s
        ≡ end_of e n (s.delivered ++ from_members sq memb h e n)
  unfolding deliver_messages pass from_members end_of
  skip_messages_lem w zero e d k stored s o j lo hi at = λ i. some (record {
    my_high_delivered = (at ∙ ap (add32 base) (zero_right e)) i;
    delivered = sym (append-nil s.delivered) i;
  })
  skip_messages_lem w (suc n) e d k stored s o j lo hi at =
      let number : add32 stored (suc k) ≡ add32 base (suc e) = omega (arith, j, o) in
      let in_window = ap (in_range sq) number ∙ in_range_at w (suc e) lo (omega (arith, hi)) in
      let got = ap (item_get sq) number ∙ item_get_at w (suc e) lo (omega (arith, hi)) in
      let rest = λ (t : List Delivery).
        skip_messages_lem w n (suc e) d (suc k) stored
          (record { my_high_delivered = add32 stored (suc k); delivered = t }) o (omega (arith, j))
          (omega (arith, lo)) (omega (arith, hi)) number
        ∙ ap
            (λ p. some (record {
              my_high_delivered = add32 base p;
              delivered = t ++ from_members sq memb h (suc e) n;
            }))
            (suc_right e n) in
      elim (Option-cases (view sq (suc e - h))) [
        | inl free ↦ rw (in_window, got, free) (rest s.delivered)
        | inr (m, held) ↦
            (let b = memb_set_subset (m.system_from ∷ []) memb in
              let found = if b then delivery m ∷ [] else [] in
              rw (in_window, got, held)
                (rest (if true && not b then s.delivered else s.delivered ++ delivery m ∷ [])
                  ∙ ap (λ t. end_of e (suc n) (t ++ from_members sq memb h (suc e) n))
                      (passed b (add32 stored (suc k)) m s)
                  ∙ ap (end_of e (suc n))
                      (append_assoc s.delivered found (from_members sq memb h (suc e) n))))
      ]

-- With skipping, messages_deliver_to_app delivers each message up to message `r` that is there and comes from a
-- member of my_deliver_memb_list, in their order, passes over all others, and comes to `r` itself. Its assertion holds
-- where `r` is less than QUEUE_RTR_ITEMS_SIZE_MAX in front of the last message delivered.
pub messages_deliver_to_app_skips :
    (ring : ℕ → Mcast) (base h d r : ℕ) (sq : Sq Mcast) (memb : List ℕ) (s : Delivering)
    → Shows ring base h sq
    → h ≤ suc d
    → d ≤ r
    → r < h + sq.size
    → r < d + 16384
    → s.my_high_delivered ≡ add32 base d
    → messages_deliver_to_app sq memb true (add32 base r) s
      ≡ some (record {
        my_high_delivered = add32 base r;
        delivered = s.delivered ++ from_members sq memb h d (r - d);
      })
unfolding messages_deliver_to_app end_of
messages_deliver_to_app_skips ring base h d r sq memb s w lo le hi small at =
    let range : sub32 (add32 base r) s.my_high_delivered ≡ r - d =
      omega (arith, at, le, lo, hi, small) in
    let short : ltb (r - d) 16384 ≡ true = lt→ltb (r - d) 16384 (omega (arith, lo, hi, small)) in
    let to : d + (r - d) ≡ r = omega (arith, le) in
    rw (range, short)
      (skip_messages_lem ring base h sq memb w (r - d) d d 0 s.my_high_delivered s at (omega arith)
          lo (omega (arith, le, hi)) at
        ∙ ap
            (λ p. some (record {
              my_high_delivered = add32 base p;
              delivered = s.delivered ++ from_members sq memb h d (r - d);
            }))
            to)
