-- ===== src/Arch/Debug.antt =====
-- src/arch/x86_64/registers/debug.rs: the four hardware breakpoints. The types of the debug
-- registers belong to another package: a size is the number that stands for it, and how sizes,
-- canonical addresses and flags are encoded is a parameter. `none` is a panic where a comment
-- says so.
pub mod Table
pub mod Stop
pub mod Control
mod Tests
use uhyve.Prelude.{
  ℕ, zero, suc, ◌+◌, ◌^◌, ◌==◌, if◌then◌else◌, Bool, true, false, ◌&&◌, Option, none, some, ◌>>=◌,
  List, [], ◌∷◌, get_elem?, replicate,
}

pub data HwBreakpointCondition : Type 0 where
  instruction_execution data_writes data_reads_writes io_reads_writes : HwBreakpointCondition

pub data WatchKind : Type 0 where
  write read read_write : WatchKind

pub record HwBreakpoint : Type 0 where
  pub addr : ℕ
  pub size : ℕ
  pub condition : HwBreakpointCondition

-- Of the package for x86-64: `VirtAddr::new` panics at an address that is not canonical, and
-- `HwBreakpointSize::try_from` knows some sizes only.
pub record Encoding : Type 0 where
  pub virt_addr : ℕ → Option ℕ
  pub try_size : ℕ → Option ℕ

-- The outcome of a constructor: a panic, a refusal, or the breakpoint.
pub data Made : Type 0 where
  panic refused : Made
  made : HwBreakpoint → Made

module _ (enc : Encoding) where
  unfoldable pub make : ℕ → ℕ → HwBreakpointCondition → Made
  make addr size condition = elim (enc.virt_addr addr) [
    | none ↦ panic
    | some a ↦ elim (enc.try_size size) [
      | none ↦ refused
      | some s ↦ made (record { addr = a; size = s; condition = condition })
    ]
  ]

  unfoldable pub new_breakpoint : ℕ → ℕ → Made
  unfolding make
  new_breakpoint addr kind = make addr kind instruction_execution

  -- The kind is looked at first.
  unfoldable pub new_watchpoint : ℕ → ℕ → WatchKind → Made
  unfolding make
  new_watchpoint addr len write = make addr len data_writes
  new_watchpoint addr len read = refused
  new_watchpoint addr len read_write = make addr len data_reads_writes

-- `[Option<HwBreakpoint>; 4]`
abbrev pub HwBreakpoints : Type 0
HwBreakpoints = List (Option HwBreakpoint)

abbrev pub new : HwBreakpoints
new = replicate 4 none

abbrev pub same_condition : HwBreakpointCondition → HwBreakpointCondition → Bool
same_condition instruction_execution instruction_execution = true
same_condition data_writes data_writes = true
same_condition data_reads_writes data_reads_writes = true
same_condition io_reads_writes io_reads_writes = true
same_condition _ _ = false

-- The derived equality.
abbrev pub same : HwBreakpoint → HwBreakpoint → Bool
same a b = (a.addr == b.addr) && (a.size == b.size) && same_condition a.condition b.condition

-- `find(is_none)` and the assignment; `none` is `CapacityExceededError`.
unfoldable pub try_insert : HwBreakpoint → HwBreakpoints → Option HwBreakpoints
try_insert b [] = none
try_insert b (none ∷ slots) = some (some b ∷ slots)
try_insert b (some a ∷ slots) = do slots' ← try_insert b slots; some (some a ∷ slots')

-- `find(slot == Some(b))` and `take`; `none` if there is no such slot.
unfoldable pub take : HwBreakpoint → HwBreakpoints → Option (HwBreakpoint × HwBreakpoints)
take b [] = none
take b (none ∷ slots) = do (a, slots') ← take b slots; some (a, none ∷ slots')
take b (some a ∷ slots) =
    let rest : Option (HwBreakpoint × HwBreakpoints) =
      take b slots >>= λ (c, slots'). some (c, some a ∷ slots') in
    if same a b then some (a, none ∷ slots) else rest

-- Why the processor stopped, as the debugger is told.
pub data StopReason : Type 0 where
  done_step hw_break : StopReason
  watch : WatchKind → ℕ → StopReason

-- `dr6` by its flags: the single step, and the trap of each breakpoint.
pub record Dr6 : Type 0 where
  pub step : Bool
  pub trap : ℕ → Bool

-- `(n..4).find(trap)`, with `left` numbers to go
unfoldable pub find_trap : ℕ → ℕ → Dr6 → Option ℕ
find_trap zero n dr6 = none
find_trap (suc left) n dr6 =
    let rest = find_trap left (n + 1) dr6 in if dr6.trap n then some n else rest

unfoldable pub reason_of : HwBreakpoint → Option StopReason
reason_of b = elim b.condition [
  | instruction_execution ↦ some hw_break
  | data_writes ↦ some (watch write b.addr)
  | data_reads_writes ↦ some (watch read_write b.addr)
  | io_reads_writes ↦ none
]

-- `none` is a panic: no trap, a trap of a free slot, or a condition that is never set.
unfoldable pub stop_reason : HwBreakpoints → Dr6 → Option StopReason
unfolding find_trap reason_of
stop_reason slots dr6 =
    if dr6.step
    then some done_step
    else (do n ← find_trap 4 0 dr6; slot ← get_elem? slots n; b ← slot; reason_of b)
