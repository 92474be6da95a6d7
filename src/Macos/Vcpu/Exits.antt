-- ===== src/Macos/Vcpu/Exits.antt =====
-- `continue` and `run` of src/macos/vcpu.rs, over the turns that the guest takes.
use uhyve.Macos.Vcpu.Output.{output}
use uhyve.Macos.Vcpu.Machine.{
  Packages, CpuState, Turn, ran, refused, CpuOutcome, proceeds, stops_with, errs, aborts, waits,
  with_cpu,
}
use uhyve.Macos.Vcpu.Fields.{
  guest_physical_address, ro_exit_qualific, ro_exit_reason, ro_vmexit_instr_len, ro_vmexit_irq_info,
}
use uhyve.Macos.Vcpu.Machine.{CpuOutcome, CpuState, Packages, Turn, stops_with, with_cpu}
use uhyve.Macos.Vcpu.Cpuid.{emulate_cpuid}
use uhyve.Macos.Vcpu.Numbers.{
  reason_cpuid, reason_ept_violation, reason_exc_nmi, reason_io, reason_irq, reason_rdmsr,
  reason_rdrand, reason_wrmsr, reason_xsetbv,
}
use uhyve.Macos.Vcpu.Mmio.{emulate_ioapic, ioapic_base, ioapic_size}
use uhyve.Memory.{Memory}
use uhyve.Prelude.{
  List, Option, [], bit_and, if◌then◌else◌, leb, ltb, none, not, shl64, shr, some, ℕ, ◌&&◌, ◌+◌,
  ◌==◌, ◌||◌, ◌∷◌,
}
use uhyve.Macos.Vcpu.{rip, rax, rcx, Register, read_register, read_vmcs, UhyveCpu, Vcpu, read_low}
use uhyve.Macos.Vcpu.Msr.{skip, emulate_rdmsr, emulate_wrmsr, emulate_xsetbv}
use uhyve.Linux.Vcpu.Machine.{VcpuStopReason, debugs, exits, kick}
pub mod Behind
pub mod Advance
pub mod Stop
mod Tests

pub data CpuRun (V W : Type 0) : Type 0 where
  run_returns : Option ℕ → CpuState V W → CpuRun V W
  run_errs : CpuState V W → CpuRun V W
  run_aborts : CpuRun V W
  run_waits : CpuRun V W

module _ {V W : Type 0} (x : Vcpu V) (env : Packages W) where
  unfoldable pub handle_io : (at : ℕ) → CpuState V W → CpuOutcome V W
  unfolding output
  handle_io at s =
      let qualification = read_vmcs x ro_exit_qualific s.cpu in
      let len = read_vmcs x ro_vmexit_instr_len s.cpu in
      let port = bit_and (shr qualification 16) 0xffff in
      if bit_and qualification 8 == 0 then output x env port at len s else aborts

  -- `assert!(valid && trap_or_breakpoint)`
  unfoldable pub handle_exception : CpuState V W → CpuOutcome V W
  handle_exception s =
      let irq_info = read_vmcs x ro_vmexit_irq_info s.cpu in
      let irq_vec = bit_and irq_info 0xff in
      let valid = not (bit_and irq_info (shl64 1 31) == 0) in
      if valid && ((irq_vec == 3) || (irq_vec == 1)) then stops_with debugs s else aborts

  unfoldable pub handle_violation : (at : ℕ) → CpuState V W → CpuOutcome V W
  unfolding emulate_ioapic
  handle_violation at s =
      let gpa = read_vmcs x guest_physical_address s.cpu in
      if leb ioapic_base gpa && ltb gpa (ioapic_base + ioapic_size)
      then with_cpu s (emulate_ioapic x env.disassemble s.memory at gpa s.cpu)
      else proceeds s

  -- `match reason { ... }`
  unfoldable pub handle_exit : CpuState V W → CpuOutcome V W
  unfolding handle_exception handle_violation handle_io emulate_cpuid emulate_rdmsr emulate_wrmsr
      emulate_xsetbv
  handle_exit s =
      let reason = bit_and (read_vmcs x ro_exit_reason s.cpu) 0xffff in
      let at = read_register x rip s.cpu in
      if reason == reason_exc_nmi
      then handle_exception s
      else if reason == reason_cpuid
      then with_cpu s (some (emulate_cpuid x env.cpuid at s.cpu))
      else if reason == reason_rdmsr
      then with_cpu s (emulate_rdmsr x at s.cpu)
      else if reason == reason_wrmsr
      then with_cpu s (emulate_wrmsr x at s.cpu)
      else if reason == reason_xsetbv
      then with_cpu s (some (emulate_xsetbv x at s.cpu))
      else if reason == reason_irq
      then proceeds s
      else if reason == reason_ept_violation
      then handle_violation at s
      else if reason == reason_rdrand
      then proceeds s
      else if reason == reason_io
      then handle_io at s
      else aborts

  -- The state in which the guest's turn ends.
  abbrev pub enter : CpuState V W → V → Memory → CpuState V W
  enter s v m = record s { cpu = record s.cpu { vcpu = v }; memory = m }

  -- `loop { self.vcpu.run()?; ... }`
  unfoldable pub continue : List (Turn V) → CpuState V W → CpuOutcome V W
  unfolding handle_exit
  continue [] s = waits
  continue (refused ∷ ts) s = errs s
  continue (ran v m ∷ ts) s = elim (handle_exit (enter s v m)) [
    | proceeds s' ↦ continue ts s'
    | stops_with reason s' ↦ stops_with reason s'
    | errs s' ↦ errs s'
    | aborts ↦ aborts
    | waits ↦ waits
  ]

  -- A stop for debugging is unreachable in `run`: a panic.
  unfoldable pub run : List (Turn V) → CpuState V W → CpuRun V W
  unfolding continue
  run ts s = elim (continue ts s) [
    | stops_with (exits code) s' ↦ run_returns (some code) s'
    | stops_with kick s' ↦ run_returns none s'
    | stops_with debugs s' ↦ run_aborts
    | proceeds s' ↦ run_waits
    | errs s' ↦ run_errs s'
    | aborts ↦ run_aborts
    | waits ↦ run_waits
  ]
