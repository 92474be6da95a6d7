-- ===== src/Prelude/Below.antt =====
-- Tests at every number below a bound.
use Prim.Native.Nat.{ℕ, zero, suc, ◌<◌}
use mathlib.Core.Bool.{Bool, true, ◌&&◌}
use mathlib.Core.Path.{◌≡◌, subst}
use native.Mathlib.Decide.{dec_lt}
use native.Mathlib.Omega.{arith}
use uhyve.Prelude.Tests.{and_true}

abbrev pub all_below : ℕ → (ℕ → Bool) → Bool
all_below zero p = true
all_below (suc n) p = p n && all_below n p

pub all_below_lem : (n : ℕ) (p : ℕ → Bool) (i : ℕ) → all_below n p ≡ true → i < n → p i ≡ true
all_below_lem zero p i h below = absurd (omega arith)
all_below_lem (suc n) p i h below =
    let (this, rest) = and_true (p n) (all_below n p) h in
    elim (dec_lt i n) [
      | yes less ↦ all_below_lem n p i rest less
      | no last ↦ let same : n ≡ i = omega arith in subst (λ (k : ℕ). p k ≡ true) same this
    ]
