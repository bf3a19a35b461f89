-- ===== src/Prelude/Int32.antt =====
-- An int32_t as its 32 bits, a number below 2 ^ 32: the arithmetic wraps.
use Prim.Native.Nat.{ℕ, ◌+◌, ◌-◌, ◌*◌, ◌/◌, ◌%◌, ◌^◌}
use mathlib.Core.Bool.{Bool, ◌&&◌}
use os_u.Prelude.Tests.{ltb, leb, ◌==◌, if◌then◌else◌}

abbrev pub is_neg : ℕ → Bool
is_neg a = leb (2 ^ 31) a

abbrev pub neg32 : ℕ → ℕ
neg32 a = (2 ^ 32 - a) % 2 ^ 32

abbrev pub add32 : ℕ → ℕ → ℕ
add32 a b = (a + b) % 2 ^ 32

abbrev pub sub32 : ℕ → ℕ → ℕ
sub32 a b = (a + 2 ^ 32 - b) % 2 ^ 32

abbrev pub mul32 : ℕ → ℕ → ℕ
mul32 a b = a * b % 2 ^ 32

abbrev pub abs32 : ℕ → ℕ
abs32 a = if is_neg a then 2 ^ 32 - a else a

-- The division that the processor refuses: the least number by -1.
abbrev pub traps : ℕ → ℕ → Bool
traps a b = a == 2 ^ 31 && b == 2 ^ 32 - 1

-- `a / b` rounds towards 0, and `a % b` has the sign of `a`.
abbrev pub div32 : ℕ → ℕ → ℕ
div32 a b =
    let q = abs32 a / abs32 b in
    if is_neg a then (if is_neg b then q else neg32 q) else (if is_neg b then neg32 q else q)

abbrev pub mod32 : ℕ → ℕ → ℕ
mod32 a b = let r = abs32 a % abs32 b in if is_neg a then neg32 r else r

abbrev pub lt32 : ℕ → ℕ → Bool
lt32 a b = ltb ((a + 2 ^ 31) % 2 ^ 32) ((b + 2 ^ 31) % 2 ^ 32)
