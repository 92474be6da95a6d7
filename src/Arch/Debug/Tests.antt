-- ===== src/Arch/Debug/Tests.antt =====
-- The debug registers of arch/x86_64/registers/debug.rs on concrete breakpoints.
use uhyve.Prelude.{[], arith, false, none, refl, some, ℕ, ◌<◌, ◌==◌, ◌∷◌, ◌≡◌}
use uhyve.Arch.Debug.{
  HwBreakpoint, HwBreakpoints, new, write, Dr6, find_trap, reason_of, stop_reason, data_writes,
  instruction_execution, watch,
}
use uhyve.Arch.Debug.Table.{count, free}

abbrev code : HwBreakpoint
code = record { addr = 0x1000; size = 0; condition = instruction_execution }

abbrev data_write : HwBreakpoint
data_write = record { addr = 0x2000; size = 3; condition = data_writes }

abbrev full : HwBreakpoints
full = some code ∷ some data_write ∷ some code ∷ some code ∷ []

abbrev two_set : HwBreakpoints
two_set = some code ∷ some data_write ∷ none ∷ none ∷ []

new-free : 0 < free new
unfolding free
new-free = omega arith

full-free : free full ≡ 0
unfolding free
full-free = refl

two_set-count : 0 < count data_write two_set
unfolding count
two_set-count = omega arith

new-count : count code new ≡ 0
unfolding count
new-count = refl

-- Only the trap of the second breakpoint is set.
abbrev second_trap : Dr6
second_trap = record { step = false; trap = λ n. n == 1 }

only_second : (j : ℕ) → j < 1 → second_trap.trap j ≡ false
only_second j h = ground arith

stop_reason_watch : stop_reason two_set second_trap ≡ some (watch write 0x2000)
unfolding stop_reason reason_of find_trap
stop_reason_watch = refl
