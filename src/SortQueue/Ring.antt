-- ===== src/SortQueue/Ring.antt =====
-- The slot arithmetic of include/corosync/sq.h.
use corosync.Prelude.{
  ℕ, ◌+◌, ◌%◌, ◌≤◌, ◌<◌, ◌≡◌, true, ap, arith, u32_mod, sub32, ltb, inl, inr, Bool-cases,
}
use corosync.SortQueue.{
  Sq, adjust_rollover_point, adjust_rollover_value, add_position, inuse_position, get_position,
  get_asserts,
}

-- The queue is not empty of slots, the head is one of them, and the window is below 0x10000.
pub record IsValid {ℓ} {A : Type ℓ} (sq : Sq A) : Type 0 where
  pub positive : 0 < sq.size
  pub small : sq.size ≤ adjust_rollover_value
  pub head_in : sq.head < sq.size
  pub word : sq.head_seqid < u32_mod

-- How far a sequence number is behind the head.
abbrev pub offset {ℓ} : {A : Type ℓ} → Sq A → ℕ → ℕ
offset sq seqid = sub32 seqid sq.head_seqid

-- The slot at a distance from the head.
abbrev pub slot {ℓ} : {A : Type ℓ} → Sq A → ℕ → ℕ
slot sq d = (sq.head + d) % sq.size

module _ {ℓ} {A : Type ℓ} (sq : Sq A) (v : IsValid sq) (seqid : ℕ) (word : seqid < u32_mod)
    (window : offset sq seqid < sq.size) where
  pub add_position-slot : add_position sq seqid ≡ slot sq (offset sq seqid)
  unfolding add_position
  add_position-slot = ap (λ n. n % sq.size) (omega (arith, v.small, v.head_in, v.word))

  pub inuse_position-slot : inuse_position sq seqid ≡ slot sq (offset sq seqid)
  unfolding inuse_position
  inuse_position-slot = ap (λ n. n % sq.size) (omega (arith, v.small, v.head_in, v.word))

  pub get_position-slot : get_position sq seqid ≡ slot sq (offset sq seqid)
  unfolding get_position
  get_position-slot = elim (Bool-cases (ltb adjust_rollover_point seqid)) [
    | inl far ↦ rw far (ap (λ n. n % sq.size) (omega (arith, v.small, v.head_in, v.word)))
    | inr near ↦ rw near (ap (λ n. n % sq.size) (omega (arith, v.small, v.head_in, v.word)))
  ]

  pub get_asserts_lem : get_asserts sq seqid ≡ true
  unfolding get_asserts
  get_asserts_lem = ground (arith, v.small, v.head_in, v.word)
