-- ===== src/Prelude/Words.antt =====
-- `unsigned int` and `int` arithmetic on 32 bits, as native numbers with the wrap written out.
use Prim.Native.Nat.{ℕ, ◌+◌, ◌-◌, ◌/◌, ◌%◌, ◌^◌}
use mathlib.Core.Bool.{Bool}
use corosync.Prelude.Tests.{ltb, ◌==◌, if◌then◌else◌}

abbrev pub u32_mod : ℕ
u32_mod = 2 ^ 32

-- unsigned a + b
abbrev pub add32 : ℕ → ℕ → ℕ
add32 a b = (a + b) % u32_mod

-- unsigned a - b, for a b below 2 ^ 32
abbrev pub sub32 : ℕ → ℕ → ℕ
sub32 a b = (a + u32_mod - b) % u32_mod

-- size_t a - b, for a b below 2 ^ 64
abbrev pub sub64 : ℕ → ℕ → ℕ
sub64 a b = (a + 2 ^ 64 - b) % 2 ^ 64

-- `a < b` of two `int`s, from their bit patterns
abbrev pub slt32 : ℕ → ℕ → Bool
slt32 a b = ltb ((a + 2 ^ 31) % u32_mod) ((b + 2 ^ 31) % u32_mod)

-- The max macro.
abbrev pub umax : ℕ → ℕ → ℕ
umax a b = if ltb b a then a else b

-- flags & mask, flags |= mask and flags &= ~mask, for a mask of one bit
abbrev pub has_flag : ℕ → ℕ → Bool
has_flag mask flags = flags / mask % 2 == 1

abbrev pub set_flag : ℕ → ℕ → ℕ
set_flag mask flags = if flags / mask % 2 == 1 then flags else flags + mask

abbrev pub clear_flag : ℕ → ℕ → ℕ
clear_flag mask flags = if flags / mask % 2 == 1 then flags - mask else flags
