-- ===== src/SortQueue/Seq.antt =====
-- The rollover-safe comparisons and the range test of include/corosync/sq.h.
use corosync.Prelude.{ℕ, ◌≤◌, ◌<◌, ◌≡◌, ◌↔◌, true, false, arith, u32_mod, add32, sub32, ltb}
use corosync.SortQueue.{Sq, adjust_rollover_value, lt_compare, lte_compare, in_range}

-- For a distance d of 1 to 0x10000, the sequence number d after a, with wrap, is greater than a by
-- sq_lt_compare, and a is not greater than it.
pub lt_compare-window :
    (a d : ℕ)
    → a < u32_mod
    → 0 < d
    → d ≤ adjust_rollover_value
    → (lt_compare a (add32 a d) ≡ true) × (lt_compare (add32 a d) a ≡ false)
unfolding lt_compare
lt_compare-window a d h p q = ground arith

-- Inside such a window sq_lte_compare agrees with the true order in both directions.
pub lte_compare-window :
    (a d : ℕ)
    → a < u32_mod
    → 0 < d
    → d ≤ adjust_rollover_value
    → (lte_compare a (add32 a d) ≡ true)
      × (lte_compare (add32 a d) a ≡ false)
      × (lte_compare a a ≡ true)
unfolding lte_compare
lte_compare-window a d h p q = ground arith

pub lt_compare_near :
    (last a b : ℕ)
    → last < u32_mod
    → a < 0x8000
    → b < 0x8000
    → lt_compare (add32 last a) (add32 last b) ≡ ltb a b
unfolding lt_compare
lt_compare_near last a b l p q = ground arith

-- sq_in_range holds exactly of the `size` sequence numbers from the head on, with wrap.
pub in_range_iff {ℓ} :
    {A : Type ℓ} (sq : Sq A) (seqid : ℕ)
    → sq.head_seqid < u32_mod
    → seqid < u32_mod
    → sq.size ≤ adjust_rollover_value
    → (in_range sq seqid ≡ true) ↔ (sub32 seqid sq.head_seqid < sq.size)
unfolding in_range
in_range_iff sq seqid h s z = (λ e. ground arith, λ e. ground arith)
