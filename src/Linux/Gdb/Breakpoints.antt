-- ===== src/Linux/Gdb/Breakpoints.antt =====
-- src/linux/gdb/breakpoints.rs: software breakpoints in the guest's code, and hardware breakpoints
-- and watchpoints in the table. `none` is a panic.
pub mod Software
use uhyve.Prelude.{
  ℕ, ◌==◌, if◌then◌else◌, Bool, true, false, ◌&&◌, Option, none, some, ◌>>=◌, List, [], ◌∷◌, length,
  replicate,
}
use uhyve.Memory.{Memory, load_bytes, store_bytes}
use uhyve.Arch.Debug
use uhyve.Arch.Debug.{
  HwBreakpoint, Made, panic, refused, made, WatchKind, Encoding, new_breakpoint, new_watchpoint,
  try_insert,
}
use uhyve.Linux.Gdb.Target.{SwBreakpoint, GdbUhyve, memory}

abbrev pub opcode : ℕ
opcode = 0xcc

abbrev pub SwBreakpoints : Type 0
SwBreakpoints = List (SwBreakpoint × List ℕ)

abbrev pub same_key : SwBreakpoint → SwBreakpoint → Bool
same_key a b = (a.addr == b.addr) && (a.kind == b.kind)

unfoldable pub lookup : SwBreakpoint → SwBreakpoints → Option (List ℕ)
lookup k [] = none
lookup k ((j, saved) ∷ rest) = if same_key j k then some saved else lookup k rest

unfoldable pub remove : SwBreakpoint → SwBreakpoints → SwBreakpoints
remove k [] = []
remove k ((j, saved) ∷ rest) = if same_key j k then rest else (j, saved) ∷ remove k rest

unfoldable pub add_sw_breakpoint : GdbUhyve → ℕ → ℕ → Bool × GdbUhyve
unfolding lookup memory
add_sw_breakpoint g addr kind =
    let key : SwBreakpoint = record { addr = addr; kind = kind } in
    let at = memory g.memory g.vm_start addr in
    elim (lookup key g.sw_breakpoints) [
      | some saved ↦ (false, g)
      | none ↦ (
        true,
        record g {
          memory = store_bytes g.memory at (replicate kind opcode);
          sw_breakpoints = (key, load_bytes kind g.memory at) ∷ g.sw_breakpoints;
        },
      )
    ]

-- `copy_from_slice` panics if the lengths differ.
unfoldable pub remove_sw_breakpoint : GdbUhyve → ℕ → ℕ → Option (Bool × GdbUhyve)
unfolding lookup remove memory
remove_sw_breakpoint g addr kind =
    let key : SwBreakpoint = record { addr = addr; kind = kind } in
    let at = memory g.memory g.vm_start addr in
    elim (lookup key g.sw_breakpoints) [
      | none ↦ some (false, g)
      | some saved ↦
          if length saved == kind
          then some (
            true,
            record g {
              memory = store_bytes g.memory at saved;
              sw_breakpoints = remove key g.sw_breakpoints;
            },
          )
          else none
    ]

-- `try_insert(..).is_ok()`
unfoldable pub add_made : GdbUhyve → Made → Option (Bool × GdbUhyve)
add_made g panic = none
add_made g refused = some (false, g)
add_made g (made b) = elim (try_insert b g.hw_breakpoints) [
  | none ↦ some (false, g)
  | some slots ↦ some (true, record g { hw_breakpoints = slots })
]

-- `take(..).is_some()`
unfoldable pub remove_made : GdbUhyve → Made → Option (Bool × GdbUhyve)
remove_made g panic = none
remove_made g refused = some (false, g)
remove_made g (made b) = elim (Debug.take b g.hw_breakpoints) [
  | none ↦ some (false, g)
  | some (a, slots) ↦ some (true, record g { hw_breakpoints = slots })
]

module _ (enc : Encoding) where
  unfoldable pub add_hw_breakpoint : GdbUhyve → ℕ → ℕ → Option (Bool × GdbUhyve)
  unfolding add_made new_breakpoint
  add_hw_breakpoint g addr kind = add_made g (new_breakpoint enc addr kind)

  unfoldable pub remove_hw_breakpoint : GdbUhyve → ℕ → ℕ → Option (Bool × GdbUhyve)
  unfolding remove_made new_breakpoint
  remove_hw_breakpoint g addr kind = remove_made g (new_breakpoint enc addr kind)

  unfoldable pub add_hw_watchpoint : GdbUhyve → ℕ → ℕ → WatchKind → Option (Bool × GdbUhyve)
  unfolding add_made new_watchpoint
  add_hw_watchpoint g addr len kind = add_made g (new_watchpoint enc addr len kind)

  unfoldable pub remove_hw_watchpoint : GdbUhyve → ℕ → ℕ → WatchKind → Option (Bool × GdbUhyve)
  unfolding remove_made new_watchpoint
  remove_hw_watchpoint g addr len kind = remove_made g (new_watchpoint enc addr len kind)
