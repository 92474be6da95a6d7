-- ===== src/Arch/Debug/Stop.antt =====
-- Which breakpoint a stop is put down to.
use native.Mathlib.Decide.{ℕ_discrete}
use uhyve.Prelude.{ℕ, zero, suc, ◌+◌, ◌<◌, ◌≤◌, ◌≡◌, arith, true, false, some, get_elem?}
use uhyve.Arch.Debug.{HwBreakpoint, HwBreakpoints, Dr6, find_trap, reason_of, stop_reason}

-- The lowest number from `n` on whose trap is set is found.
find_trap_lowest :
    (left n k : ℕ) (dr6 : Dr6)
    → n ≤ k
    → k < n + left
    → dr6.trap k ≡ true
    → ((j : ℕ) → n ≤ j → j < k → dr6.trap j ≡ false)
    → find_trap left n dr6 ≡ some k
unfolding find_trap
find_trap_lowest zero n k dr6 p q hit lower = absurd (omega arith)
find_trap_lowest (suc left) n k dr6 p q hit lower = elim (ℕ_discrete n k) [
  | yes e ↦ rw (e, hit)
  | no ne ↦ rw (lower n (omega arith) (omega arith)) (
      find_trap_lowest left (n + 1) k dr6 (omega arith) (omega arith) hit
        (λ j a b. lower j (omega arith) b))
]

-- Without a single step the stop is put down to the lowest breakpoint whose trap is set: to its
-- kind, and for a watchpoint to its address.
pub stop_reason_lowest :
    (slots : HwBreakpoints) (dr6 : Dr6) (k : ℕ) {b : HwBreakpoint}
    → dr6.step ≡ false
    → k < 4
    → dr6.trap k ≡ true
    → ((j : ℕ) → j < k → dr6.trap j ≡ false)
    → get_elem? slots k ≡ some (some b)
    → stop_reason slots dr6 ≡ reason_of b
unfolding stop_reason
stop_reason_lowest slots dr6 k step small hit lower slot =
    rw (step, find_trap_lowest 4 0 k dr6 (omega arith) small hit (λ j p q. lower j q), slot)
