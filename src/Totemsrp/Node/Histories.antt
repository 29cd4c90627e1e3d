-- ===== src/Totemsrp/Node/Histories.antt =====
-- The messages of a ring of exec/totemsrp.c, when a node adds those that wait at it.
use corosync.Prelude.{
  ℕ, zero, suc, ◌+◌, ◌≤◌, ◌<◌, ◌≡◌, refl, ap, sym, ◌∙◌, false, some, List, [], ◌∷◌, inl, inr, arith,
  ltb, ltb→lt, ◌==◌, update, if◌then◌else◌, Bool-cases, eq→==,
}
use corosync.Totemsrp.Membership.{Instance}
use corosync.Totemsrp.Deliver.{Mcast, delivery}
use corosync.Totemsrp.Deliver.InOrder.{deliveries}
use corosync.Totemsrp.Node.{RingNode}
use corosync.Totemsrp.Node.Window.{Outgoing, Ordered}
use corosync.Totemsrp.Node.Sending.{Follow}

-- The ring with other messages behind message `e`.
abbrev pub extend {ℓ} : {A : Type ℓ} → (ℕ → A) → ℕ → List A → ℕ → A
extend ring e [] = ring
extend ring e (x ∷ xs) = update (extend ring (suc e) xs) (suc e) x

pub extend_old :
    {A : Type 0} (ring : ℕ → A) (e d : ℕ) (xs : List A) → d ≤ e → extend ring e xs d ≡ ring d
extend_old ring e d [] p = refl
extend_old ring e d (x ∷ xs) p =
    ap (λ b. if b then x else extend ring (suc e) xs d) (not_next e d p)
    ∙ extend_old ring (suc e) d xs (omega (arith, p))
  where
    not_next : (e d : ℕ) → d ≤ e → (d == suc e) ≡ false
    not_next e d p = ground (arith, p)

later : (e d : ℕ) → suc e < d → (d == suc e) ≡ false
later e d p = ground (arith, p)

module _ {A : Type 0} where
  Follow-agree :
      (ring ring' : ℕ → A) (e : ℕ) (xs : List A)
      → ((d : ℕ) → e < d → ring d ≡ ring' d)
      → Follow ring e xs
      → Follow ring' e xs
  Follow-agree ring ring' e [] h f = tt
  Follow-agree ring ring' e (x ∷ xs) h f = (
    f.0 ∙ h (suc e) (omega arith),
    Follow-agree ring ring' (suc e) xs (λ d p. h d (omega (arith, p))) f.1,
  )

  pub Follow-extend : (ring : ℕ → A) (e : ℕ) (xs : List A) → Follow (extend ring e xs) e xs
  Follow-extend ring e [] = tt
  Follow-extend ring e (x ∷ xs) = (
    sym (ap (λ b. if b then x else extend ring (suc e) xs (suc e)) (eq→== (suc e) (suc e) refl)),
    Follow-agree (extend ring (suc e) xs) (extend ring e (x ∷ xs)) (suc e) xs
        (λ d p. sym (ap (λ b. if b then x else extend ring (suc e) xs d) (later e d p)))
        (Follow-extend ring (suc e) xs),
  )

deliveries-agree :
    (ring ring' : ℕ → Mcast) (a n : ℕ)
    → ((d : ℕ) → d ≤ a + n → ring d ≡ ring' d)
    → deliveries ring a n ≡ deliveries ring' a n
deliveries-agree ring ring' a zero h = refl
deliveries-agree ring ring' a (suc n) h =
    ap (λ m. delivery m ∷ deliveries ring (suc a) n) (h (suc a) (omega arith))
    ∙ ap (λ l. delivery (ring' (suc a)) ∷ l)
        (deliveries-agree ring ring' (suc a) n (λ d p. h d (omega (arith, p))))

-- The order is that of any ring with the same messages so far.
pub Ordered-agree :
    (ring ring' : ℕ → Mcast) (base : ℕ) (m : Instance) (q : Outgoing) (gone e : ℕ) (s : RingNode)
    → Ordered ring base m q gone e s
    → ((d : ℕ) → d ≤ e → ring d ≡ ring' d)
    → Ordered ring' base m q gone e s
Ordered-agree ring ring' base m q gone e s (o, exact) h = (
  record {
    done = o.done;
    aru = o.aru;
    top = o.top;
    last_aru = o.last_aru;
    own = o.own;
    state = o.state;
    outgoing_at = o.outgoing_at;
    queue = o.queue;
    size = o.size;
    window = record {
      valid = o.window.valid;
      head_at = o.window.head_at;
      agrees = λ d p b. elim (Bool-cases (ltb o.top d)) [
        | inl t ↦ inl (o.above d (ltb→lt _ _ t) b)
        | inr t ↦ elim (o.window.agrees d p b) [
          | inl free ↦ inl free
          | inr held ↦ inr (held ∙ ap (λ x. some x) (h d (ground (arith, t, o.top-last))))
        ]
      ];
    };
    gone_at = o.gone_at;
    done_at = o.done_at;
    aru_at = o.aru_at;
    top_at = o.top_at;
    last_aru_at = o.last_aru_at;
    prefix =
        o.prefix
        ∙ deliveries-agree ring ring' 0 o.done
            (λ d p. h d (omega (arith, p, o.done-aru, o.aru-top, o.top-last)));
    above = o.above;
    gone-done = o.gone-done;
    done-aru = o.done-aru;
    aru-top = o.aru-top;
    top-last = o.top-last;
    top-gone = o.top-gone;
    gone-last = o.gone-last;
    last-gone = o.last-gone;
  },
  exact,
)
