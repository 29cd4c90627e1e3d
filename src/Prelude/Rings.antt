-- ===== src/Prelude/Rings.antt =====
-- The slot of a ring buffer, at a distance from a slot.
use Prim.Native.Nat.{ℕ, ◌+◌, ◌-◌, ◌%◌, ◌≤◌, ◌<◌}
use mathlib.Core.Path.{◌≡◌}
use native.Mathlib.Omega.{arith}
use native.Mathlib.Nat.{mod-eq_of_lt, mod-eq-sub-mod}
use corosync.Prelude.Tests.{ltb, if◌then◌else◌}

pub slot_cases :
    (head d size : ℕ)
    → head < size
    → d ≤ size
    → (head + d) % size ≡ (if ltb (head + d) size then head + d else head + d - size)
slot_cases head d size h k = ground (
  arith,
  mod-eq_of_lt {n = head + d} {m = size},
  below,
  mod-eq_of_lt {n = head + d - size} {m = size},
)
  where
    below : size ≤ head + d → (head + d) % size ≡ (head + d - size) % size
    below p = mod-eq-sub-mod p
