-- ===== src/Linux/Gdb/Run.antt =====
-- src/linux/gdb/mod.rs: how the debugger lets the guest run, and what it learns of the end.
use uhyve.Prelude.{Bool, List, Option, bit_or, false, if◌then◌else◌, none, some, true, ℕ, ◌==◌}
use uhyve.Arch.Debug.{HwBreakpoints, Dr6, StopReason, stop_reason, read}
use uhyve.Arch.Debug.Control.{Dr7, registers}
use uhyve.Linux.Vcpu.Exits.{continue}
use uhyve.Linux.Vcpu.Machine.{
  Machine, Outcome, Surroundings, VcpuExit, debugs, exits, kick, resumes, stops, fails, panics,
  hangs,
}
pub mod Stops
mod Tests

-- A `kvm_guest_debug`: its control word and the debug registers.
pub record GuestDebug : Type 0 where
  pub control : ℕ
  pub debugreg : List ℕ

-- KVM_GUESTDBG_ENABLE, KVM_GUESTDBG_USE_SW_BP and KVM_GUESTDBG_USE_HW_BP
abbrev pub guestdbg_breakpoints : ℕ
guestdbg_breakpoints = bit_or (bit_or 1 0x1_0000) 0x2_0000

-- KVM_GUESTDBG_SINGLESTEP
abbrev pub guestdbg_singlestep : ℕ
guestdbg_singlestep = 2

-- What an exit for debugging says: the exception's vector and the register DR6.
pub record DebugExit : Type 0 where
  pub exception : ℕ
  pub dr6 : Dr6

abbrev pub db_vector : ℕ
db_vector = 1

abbrev pub bp_vector : ℕ
bp_vector = 3

-- What the debugger is told.
pub data GdbStop : Type 0 where
  hardware : StopReason → GdbStop
  sw_break : GdbStop
  exited : (status : ℕ) → GdbStop
  sigint : GdbStop

-- The outcome of `run`: a stop, an error, a panic, or nothing yet.
pub data GdbRun (W : Type 0) : Type 0 where
  reports : GdbStop → Machine W → GdbRun W
  gdb_fails : Machine W → GdbRun W
  gdb_panics : GdbRun W
  gdb_hangs : GdbRun W

-- What the event loop hands to the stub.
pub data Event : Type 0 where
  incoming_data : (byte : ℕ) → Event
  target_stopped : GdbStop → Event

-- An event, an error of the target or of the connection, a panic, or nothing yet.
pub data Waited : Type 0 where
  event : Event → Waited
  target_error connection_error wait_panics wait_hangs : Waited

-- The debugger's connection: `peek` can fail, or see no byte.
pub record Connection : Type 0 where
  pub peek : Option (Option ℕ)
  pub read : Option ℕ

module _ {D : Type 0} (dr7 : Dr7 D) where
  unfoldable pub apply_guest_debug : (step : Bool) → HwBreakpoints → GuestDebug
  unfolding registers
  apply_guest_debug step slots = record {
    control =
        if step then bit_or guestdbg_breakpoints guestdbg_singlestep else guestdbg_breakpoints;
    debugreg = registers dr7 slots;
  }

  -- `none` is the error EINVAL: a signal cannot be delivered.
  unfoldable pub resume : (signal : Option ℕ) → HwBreakpoints → Option GuestDebug
  unfolding apply_guest_debug
  resume none slots = some (apply_guest_debug false slots)
  resume (some signal) slots = none

  unfoldable pub step : (signal : Option ℕ) → HwBreakpoints → Option GuestDebug
  unfolding apply_guest_debug
  step none slots = some (apply_guest_debug true slots)
  step (some signal) slots = none

-- After an interrupt a byte of the debugger must be there.
abbrev pub read_interrupt : Connection → Waited
read_interrupt conn = elim conn.peek [
  | none ↦ connection_error
  | some none ↦ wait_panics
  | some (some seen) ↦ elim conn.read [
    | none ↦ connection_error
    | some byte ↦ event (incoming_data byte)
  ]
]

module _ {W : Type 0} where
  -- `match debug.exception`
  abbrev pub debug_stop : DebugExit → HwBreakpoints → Machine W → GdbRun W
  debug_stop info slots s =
      if info.exception == db_vector
      then elim (stop_reason slots info.dr6) [
        | none ↦ gdb_panics
        | some reason ↦ reports (hardware reason) s
      ]
      else if info.exception == bp_vector
      then reports sw_break s
      else gdb_panics

  -- `match self.vcpu.continue()`
  unfoldable pub run_outcome : DebugExit → HwBreakpoints → Outcome W → GdbRun W
  unfolding stop_reason
  run_outcome info slots (stops debugs s) = debug_stop info slots s
  run_outcome info slots (stops (exits code) s) = reports (exited (if code == 0 then 0 else 1)) s
  run_outcome info slots (stops kick s) = reports sigint s
  run_outcome info slots (resumes s dest) = gdb_hangs
  run_outcome info slots (fails s) = gdb_fails s
  run_outcome info slots panics = gdb_panics
  run_outcome info slots hangs = gdb_hangs

  unfoldable pub run :
      Surroundings W → DebugExit → HwBreakpoints → List VcpuExit → Machine W → GdbRun W
  unfolding run_outcome continue
  run env info slots es s = run_outcome info slots (continue env es s)

  unfoldable pub wait_for_stop_reason : Connection → GdbRun W → Waited
  wait_for_stop_reason conn (reports sigint s) = read_interrupt conn
  wait_for_stop_reason conn (reports (hardware reason) s) = event (target_stopped (hardware reason))
  wait_for_stop_reason conn (reports sw_break s) = event (target_stopped sw_break)
  wait_for_stop_reason conn (reports (exited status) s) = event (target_stopped (exited status))
  wait_for_stop_reason conn (gdb_fails s) = target_error
  wait_for_stop_reason conn gdb_panics = wait_panics
  wait_for_stop_reason conn gdb_hangs = wait_hangs
