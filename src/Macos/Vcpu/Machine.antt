-- ===== src/Macos/Vcpu/Machine.antt =====
-- The state that the exits of src/macos/vcpu.rs change. What the guest does between two exits is one
-- turn, with the state of the processor and of memory that it ends in.
use uhyve.Macos.Vcpu.Cpuid.{CpuidResult}
use uhyve.Macos.Vcpu.Mmio.{Instruction}
use uhyve.Memory.{Memory}
use uhyve.Prelude.{List, Option, none, some, ℕ}
use uhyve.Vm.Hypercalls.{Libc}
use uhyve.Linux.Vcpu.Machine.{VcpuStopReason}
use uhyve.Macos.Vcpu.{UhyveCpu}

-- What the virtual CPU is run with: the intrinsic `__cpuid_count`, the disassembler, the command
-- line and the environment, libc, and standard output.
pub record Packages (W : Type 0) : Type 0 where
  pub cpuid : (leaf sub : ℕ) → CpuidResult
  pub disassemble : List ℕ → (at : ℕ) → Option Instruction
  pub path : List ℕ
  pub arguments : List (List ℕ)
  pub vars : List (List ℕ × List ℕ)
  pub libc : Libc W
  pub print : List ℕ → W → Option W
  pub fuel : ℕ

pub record CpuState (V W : Type 0) : Type 0 where
  pub cpu : UhyveCpu V
  pub memory : Memory
  pub world : W

-- One turn of `vcpu.run()`: the guest ran to an exit, or the call failed.
pub data Turn (V : Type 0) : Type 0 where
  ran : V → Memory → Turn V
  refused : Turn V

-- After an exit: the next turn, a stop, an error of `run()`, a panic, or nothing yet: a `write`
-- that has not ended within its fuel, or no further turn.
pub data CpuOutcome (V W : Type 0) : Type 0 where
  proceeds : CpuState V W → CpuOutcome V W
  stops_with : VcpuStopReason → CpuState V W → CpuOutcome V W
  errs : CpuState V W → CpuOutcome V W
  aborts : CpuOutcome V W
  waits : CpuOutcome V W

module _ {V W : Type 0} where
  -- After the emulation of an instruction, which can panic.
  abbrev pub with_cpu : CpuState V W → Option (UhyveCpu V) → CpuOutcome V W
  with_cpu s none = aborts
  with_cpu s (some c) = proceeds (record s { cpu = c })
