-- ===== src/Prelude/Loops.antt =====
-- A counted loop that stops at the first index which passes a test.
use Prim.Native.Nat.{ℕ, zero, suc, ◌+◌, ◌≤◌, ◌<◌}
use mathlib.Core.Path.{◌≡◌, refl}
use mathlib.Core.Logic.{◌⊎◌, inl, inr}
use mathlib.Core.Bool.{Bool, true, false}
use mathlib.Core.Option.{Option, none, some}
use native.Mathlib.Omega.{arith}
use os_u.Prelude.Tests.{if◌then◌else◌, Bool-cases}

-- `for (k = i; k < i + n; k++) if (test k) return k;`, with `none` if the loop runs to its end.
unfoldable pub find_from : (ℕ → Bool) → ℕ → ℕ → Option ℕ
find_from test zero i = none
find_from test (suc n) i = let rest = find_from test n (i + 1) in if test i then some i else rest

-- `k` is the first index from `i` on, before `i + n`, that passes.
pub record IsFirst (test : ℕ → Bool) (n i k : ℕ) : Type 0 where
  pub from : i ≤ k
  pub before : k < i + n
  pub passes : test k ≡ true
  pub fail_below : (j : ℕ) → i ≤ j → j < k → test j ≡ false

abbrev pub NonePass : (ℕ → Bool) → ℕ → ℕ → Type 0
NonePass test n i = (j : ℕ) → i ≤ j → j < i + n → test j ≡ false

-- The value with what it says, on both outcomes.
pub find_from_lem :
    (test : ℕ → Bool) (n i : ℕ)
    → ((find_from test n i ≡ none) × NonePass test n i)
      ⊎ ((k : ℕ) × (find_from test n i ≡ some k) × IsFirst test n i k)
unfolding find_from
find_from_lem test zero i = inl (refl, λ j p q. absurd (omega arith))
find_from_lem test (suc n) i = elim (Bool-cases (test i)) [
  | inl e ↦ inr (
    i,
    ground arith,
    record {
      from = omega arith;
      before = omega arith;
      passes = e;
      fail_below = λ j p q. absurd (omega arith);
    },
  )
  | inr e ↦ elim (find_from_lem test n (i + 1)) [
    | inl (none_found, all) ↦ inl (ground arith, λ j p q. later e all j p q)
    | inr (k, found, first) ↦ inr (
      k,
      ground arith,
      record {
        from = omega (arith, first.from);
        before = omega (arith, first.before);
        passes = first.passes;
        fail_below = λ j p q. earlier k e first j p q;
      },
    )
  ]
]
  where
    later :
        test i ≡ false → NonePass test n (i + 1) → (j : ℕ) → i ≤ j → j < i + suc n → test j ≡ false
    later e all j p q = ground (arith, all j)

    earlier :
        (k : ℕ)
        → test i ≡ false
        → IsFirst test n (i + 1) k
        → (j : ℕ) → i ≤ j
        → j < k
        → test j ≡ false
    earlier k e first j p q = ground (arith, first.fail_below j)
