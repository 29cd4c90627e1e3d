-- ===== src/Totemsrp/Flow/Limit.antt =====
-- The limit that the retransmit queue of exec/totemsrp.c sets to new messages.
use corosync.Prelude.{
  ℕ, ◌+◌, ◌-◌, ◌^◌, ◌≤◌, ◌<◌, ◌≡◌, refl, ap, ◌∙◌, true, false, none, some, arith, ltb, leb, ltb→lt,
  Bool-cases, ◌⊎◌, inl, inr, add32, sub32, u32_mod,
}
use corosync.SortQueue.{lt_compare}
use corosync.SortQueue.Seq.{lt_compare_near}
use corosync.Totemsrp.Flow.{FlowToken, limit, fcc_rtr_limit}

holds :
    (window_size transmits_allowed : ℕ)
    → transmits_allowed + window_size ≤ 16384
    → leb (2 ^ 31) (sub32 16384 (add32 transmits_allowed window_size)) ≡ false
holds window_size transmits_allowed w = ground (arith, w)

fails :
    (window_size transmits_allowed : ℕ)
    → 16384 < transmits_allowed + window_size
    → transmits_allowed + window_size < 2 ^ 31
    → leb (2 ^ 31) (sub32 16384 (add32 transmits_allowed window_size)) ≡ true
fails window_size transmits_allowed w b = ground (arith, w, b)

-- Behind message `d` of those that are not released, a node may send all that it may or nothing.
abbrev pub Limits : ℕ → ℕ → ℕ → ℕ → Type 0
Limits window_size d transmits_allowed n =
    ((n ≡ transmits_allowed) × (d + transmits_allowed + window_size ≤ 16384))
    ⊎ ((n ≡ 0) × (16384 < d + transmits_allowed + window_size))

limited_at :
    (window_size last_released d transmits_allowed : ℕ) (token : FlowToken)
    → last_released < u32_mod
    → d < 0x8000
    → token.seq ≡ add32 last_released d
    → transmits_allowed + window_size ≤ 16384
    → lt_compare (limit window_size last_released transmits_allowed) token.seq
      ≡ ltb 16384 (d + transmits_allowed + window_size)
limited_at window_size last_released d transmits_allowed token l h e w =
    let r = 16384 - (transmits_allowed + window_size) in
    let a : limit window_size last_released transmits_allowed ≡ add32 last_released r =
      omega (arith, l, w) in
    let same : ltb r d ≡ ltb 16384 (d + transmits_allowed + window_size) = ground (arith, w) in
    ap (λ x. lt_compare x token.seq) a
    ∙ ap (lt_compare (add32 last_released r)) e
    ∙ lt_compare_near last_released r d l (omega arith) h
    ∙ same

limit_exact :
    (window_size last_released d transmits_allowed : ℕ) (token : FlowToken)
    → last_released < u32_mod
    → d < 0x8000
    → token.seq ≡ add32 last_released d
    → transmits_allowed + window_size ≤ 16384
    → (n : ℕ) × (fcc_rtr_limit window_size last_released token transmits_allowed ≡ some n)
      × Limits window_size d transmits_allowed n
unfolding fcc_rtr_limit
limit_exact window_size last_released d transmits_allowed token l h e w =
    let at = limited_at window_size last_released d transmits_allowed token l h e w in
    elim (Bool-cases (ltb 16384 (d + transmits_allowed + window_size))) [
      | inl t ↦
          (0, rw (holds window_size transmits_allowed w, at ∙ t) refl, inr (refl, ltb→lt _ _ t))
      | inr t ↦ (
        transmits_allowed,
        rw (holds window_size transmits_allowed w, at ∙ t) refl,
        inl (refl, ground (arith, t)),
      )
    ]

-- Where all that may be sent and a window fit in the retransmit queue.
pub fcc_rtr_limit_fits :
    (window_size last_released d transmits_allowed : ℕ) (token : FlowToken)
    → last_released < u32_mod
    → d < 0x8000
    → token.seq ≡ add32 last_released d
    → transmits_allowed + window_size ≤ 16384
    → (n : ℕ) × (fcc_rtr_limit window_size last_released token transmits_allowed ≡ some n)
      × (n ≤ transmits_allowed)
      × ((n ≡ 0) ⊎ (d + transmits_allowed + window_size ≤ 16384))
fcc_rtr_limit_fits window_size last_released d transmits_allowed token l h e w =
    let x = limit_exact window_size last_released d transmits_allowed token l h e w in
    (
      x.0,
      x.1,
      elim x.2 [ inl (all, fits) ↦ omega (arith, all) | inr (stop, full) ↦ omega (arith, stop) ],
      elim x.2 [ inl (all, fits) ↦ inr fits | inr (stop, full) ↦ inl stop ],
    )

-- The assertion of fcc_rtr_limit fails exactly if what the node may send and a window are more than the places of the
-- retransmit queue, which the settings do not rule out. Otherwise the node may still send all that it may exactly if the
-- messages that are not released, those it may send and a whole window more fit in that queue, and nothing if not. This
-- is for a token that is less than 0x8000 in front of the last message released, also where the numbers wrap, and for
-- less than 2 ^ 31 messages and window.
pub fcc_rtr_limit_lem :
    (window_size last_released d transmits_allowed : ℕ) (token : FlowToken)
    → last_released < u32_mod
    → d < 0x8000
    → token.seq ≡ add32 last_released d
    → transmits_allowed + window_size < 2 ^ 31
    → ((16384 < transmits_allowed + window_size)
        × (fcc_rtr_limit window_size last_released token transmits_allowed ≡ none))
      ⊎ ((transmits_allowed + window_size ≤ 16384)
          × ((n : ℕ) × (fcc_rtr_limit window_size last_released token transmits_allowed ≡ some n)
              × Limits window_size d transmits_allowed n))
unfolding fcc_rtr_limit
fcc_rtr_limit_lem window_size last_released d transmits_allowed token l h e b =
    elim (Bool-cases (ltb 16384 (transmits_allowed + window_size))) [
      | inl t ↦ inl (ltb→lt _ _ t, rw (fails window_size transmits_allowed (ltb→lt _ _ t) b) refl)
      | inr t ↦
          (let w : transmits_allowed + window_size ≤ 16384 = ground (arith, t) in
            inr (w, limit_exact window_size last_released d transmits_allowed token l h e w))
    ]
