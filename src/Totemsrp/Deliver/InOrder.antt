-- ===== src/Totemsrp/Deliver/InOrder.antt =====
-- The delivery without skipping of exec/totemsrp.c.
use corosync.Prelude.{
  ℕ, zero, suc, ◌+◌, ◌-◌, ◌≤◌, ◌<◌, ◌≡◌, refl, sym, ap, subst, ◌∙◌, true, false, Option, none, some,
  Bool-cases, List, [], ◌∷◌, ◌++◌, inl, inr, ◌⊎◌, arith, ltb, lt→ltb, ltb→lt, add32, sub32,
}
use mathlib.Core.List.{append-nil, append_assoc}
use corosync.SortQueue.{Sq, in_range, item_get}
use corosync.SortQueue.View.{view}
use corosync.Totemsrp.Deliver.{
  Mcast, Delivery, Delivering, delivery, pass, deliver_messages, messages_deliver_to_app,
}
use corosync.Totemsrp.Deliver.Window.{Shows, in_range_at, item_get_at}

-- The deliveries of the `n` messages behind message `d`.
abbrev pub deliveries : (ℕ → Mcast) → ℕ → ℕ → List Delivery
deliveries ring d zero = []
deliveries ring d (suc n) = delivery (ring (suc d)) ∷ deliveries ring (suc d) n

suc_right : (d n : ℕ) → suc d + n ≡ d + suc n
suc_right d n = omega arith

suc_left : (n m : ℕ) → suc n + m ≡ suc (n + m)
suc_left n m = omega arith

zero_left : (m : ℕ) → 0 + m ≡ m
zero_left m = omega arith

zero_right : (d : ℕ) → d ≡ d + 0
zero_right d = omega arith

deliveries-append :
    (ring : ℕ → Mcast) (d n m : ℕ)
    → deliveries ring d (n + m) ≡ deliveries ring d n ++ deliveries ring (d + n) m
deliveries-append ring d zero m =
    ap (deliveries ring d) (zero_left m) ∙ ap (λ e. deliveries ring e m) (zero_right d)
deliveries-append ring d (suc n) m =
    ap (deliveries ring d) (suc_left n m)
    ∙ ap (λ l. delivery (ring (suc d)) ∷ l)
        (deliveries-append ring (suc d) n m
          ∙ ap (λ e. deliveries ring (suc d) n ++ deliveries ring e m) (suc_right d n))

pub deliveries_further :
    (ring : ℕ → Mcast) (n m : ℕ)
    → deliveries ring 0 n ++ deliveries ring n m ≡ deliveries ring 0 (n + m)
deliveries_further ring n m =
    ap (λ e. deliveries ring 0 n ++ deliveries ring e m) (sym (zero_left n))
    ∙ sym (deliveries-append ring 0 n m)

next : (d j : ℕ) → d < j → ltb (suc d) j ≡ false → suc d ≡ j
next d j p t = ground (arith, p, t)

module _ (ring : ℕ → Mcast) (base h : ℕ) (sq : Sq Mcast) where
  -- The delivery behind message `d`, of `n` messages at most, stops at the first that is missing.
  pub record Delivers (d n : ℕ) (s : Delivering) (r : Option Delivering) : Type 0 where
    pub more : ℕ
    pub within : more ≤ n
    pub result :
        r
        ≡ some (record {
          my_high_delivered = add32 base (d + more);
          delivered = s.delivered ++ deliveries ring d more;
        })
    pub held : (j : ℕ) → d < j → j ≤ d + more → view sq (j - h) ≡ some (ring j)
    pub stop : (more ≡ n) ⊎ (view sq (suc (d + more) - h) ≡ none)

  -- The next message is delivered first.
  one_more :
      {d n v : ℕ} {s : Delivering} {r : Option Delivering}
      → Delivers
          (suc d)
          n
          (record {
            my_high_delivered = v;
            delivered = s.delivered ++ delivery (ring (suc d)) ∷ [];
          })
          r
      → view sq (suc d - h) ≡ some (ring (suc d))
      → Delivers d (suc n) s r
  one_more {d} {n} {s} l first = record {
    more = suc l.more;
    within = omega (arith, l.within);
    result = l.result ∙ (λ i. some (record {
      my_high_delivered = add32 base (suc_right d l.more i);
      delivered =
          append_assoc s.delivered (delivery (ring (suc d)) ∷ []) (deliveries ring (suc d) l.more)
            i;
    }));
    held = λ j p q. elim (Bool-cases (ltb (suc d) j)) [
      | inl t ↦ l.held j (ltb→lt _ _ t) (omega (arith, q))
      | inr t ↦ subst (λ m. view sq (m - h) ≡ some (ring m)) (next d j p t) first
    ];
    stop = elim l.stop [
      | inl e ↦ inl (omega (arith, e))
      | inr e ↦ inr (ap (λ e. view sq (suc e - h)) (sym (suc_right d l.more)) ∙ e)
    ];
  }

  deliver_messages-Delivers :
      Shows ring base h sq
      → (n e d k stored : ℕ) (s : Delivering) (memb : List ℕ) → stored ≡ add32 base d
      → d + k ≡ e
      → h ≤ suc e
      → e + n < h + sq.size
      → s.my_high_delivered ≡ add32 base e
      → Delivers e n s (deliver_messages sq false memb stored n (suc k) s)
  unfolding deliver_messages pass
  deliver_messages-Delivers w zero e d k stored s memb o j lo hi at = record {
    more = 0;
    within = omega arith;
    result = λ i. some (record {
      my_high_delivered = (at ∙ ap (add32 base) (zero_right e)) i;
      delivered = sym (append-nil s.delivered) i;
    });
    held = λ j p q. absurd (omega (arith, p, q));
    stop = inl refl;
  }
  deliver_messages-Delivers w (suc n) e d k stored s memb o j lo hi at =
      let number : add32 stored (suc k) ≡ add32 base (suc e) = omega (arith, j, o) in
      let in_window = ap (in_range sq) number ∙ in_range_at w (suc e) lo (omega (arith, hi)) in
      let got = ap (item_get sq) number ∙ item_get_at w (suc e) lo (omega (arith, hi)) in
      elim (w.agrees (suc e) lo (omega (arith, hi))) [
        | inl free ↦ record {
          more = 0;
          within = omega arith;
          result =
              rw (in_window, got, free)
                (λ i. some (record {
                  my_high_delivered = (at ∙ ap (add32 base) (zero_right e)) i;
                  delivered = sym (append-nil s.delivered) i;
                }));
          held = λ j p q. absurd (omega (arith, p, q));
          stop = inr (ap (λ m. view sq (suc m - h)) (sym (zero_right e)) ∙ free);
        }
        | inr held ↦
            rw (in_window, got, held)
              (one_more
                (deliver_messages-Delivers w n (suc e) d (suc k) stored
                  (record {
                    my_high_delivered = add32 stored (suc k);
                    delivered = s.delivered ++ delivery (ring (suc e)) ∷ [];
                  })
                  memb o (omega (arith, j)) (omega (arith, lo)) (omega (arith, hi)) number)
                held)
      ]

-- What messages_deliver_to_app delivers without skipping, from message `d` to message `r` of the ring: the messages behind
-- `d` up to the first that is missing, whole and in their order. Its assertion holds where `r` is less than
-- QUEUE_RTR_ITEMS_SIZE_MAX in front of `d`.
pub messages_deliver_to_app_in_order :
    (ring : ℕ → Mcast) (base h d r : ℕ) (sq : Sq Mcast) (memb : List ℕ) (s : Delivering)
    → Shows ring base h sq
    → h ≤ suc d
    → d ≤ r
    → r < h + sq.size
    → r < d + 16384
    → s.my_high_delivered ≡ add32 base d
    → Delivers ring base h sq d (r - d) s (messages_deliver_to_app sq memb false (add32 base r) s)
unfolding messages_deliver_to_app
messages_deliver_to_app_in_order ring base h d r sq memb s w lo le hi small at =
    let range : sub32 (add32 base r) s.my_high_delivered ≡ r - d =
      omega (arith, at, le, lo, hi, small) in
    let short : ltb (r - d) 16384 ≡ true = lt→ltb (r - d) 16384 (omega (arith, lo, hi, small)) in
    rw (range, short)
      (deliver_messages-Delivers ring base h sq w (r - d) d d 0 s.my_high_delivered s memb at
        (omega arith) lo (omega (arith, le, hi)) at)
