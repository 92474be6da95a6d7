-- ===== src/Macos/Vcpu/Exits/Stop.antt =====
-- When the loop of `continue` on macOS does not end.
use uhyve.Macos.Vcpu.Fields.{guest_physical_address, ro_exit_reason}
use uhyve.Macos.Vcpu.Numbers.{reason_ept_violation}
use uhyve.Macos.Vcpu.Mmio.{ioapic_base, ioapic_size}
use uhyve.Prelude.{
  bit_and, refl, replicate, ℕ, ◌+◌, ◌<◌, ◌≡◌, ◌≤◌, ◌⊎◌, arith, false, leb, ltb, suc, zero, ◌&&◌,
}
use uhyve.Macos.Vcpu.{Vcpu, read_vmcs}
use uhyve.Macos.Vcpu.Exits.{handle_exit, continue}
use uhyve.Macos.Vcpu.Machine.{Packages, CpuState, ran, proceeds, waits}

module _ {V W : Type 0} (x : Vcpu V) (env : Packages W) where
  handle_exit_same :
      (s : CpuState V W)
      → bit_and (read_vmcs x ro_exit_reason s.cpu) 0xffff ≡ reason_ept_violation
      → (read_vmcs x guest_physical_address s.cpu < ioapic_base)
        ⊎ (ioapic_base + ioapic_size ≤ read_vmcs x guest_physical_address s.cpu)
      → handle_exit x env s ≡ proceeds s
  unfolding handle_exit
  handle_exit_same s is beyond =
      let gpa = read_vmcs x guest_physical_address s.cpu in
      let test : (leb ioapic_base gpa && ltb gpa (ioapic_base + ioapic_size)) ≡ false =
        ground arith in
      rw (is, test) refl

  -- A guest that touches memory that it does not have, outside of the window of the interrupt
  -- controller, is neither stopped nor helped: as long as it finds itself in the same state again,
  -- it exits in the same way, and `continue` does not end.
  pub continue_stuck :
      (n : ℕ) (s : CpuState V W)
      → bit_and (read_vmcs x ro_exit_reason s.cpu) 0xffff ≡ reason_ept_violation
      → (read_vmcs x guest_physical_address s.cpu < ioapic_base)
        ⊎ (ioapic_base + ioapic_size ≤ read_vmcs x guest_physical_address s.cpu)
      → continue x env (replicate n (ran s.cpu.vcpu s.memory)) s ≡ waits
  unfolding continue
  continue_stuck zero s is beyond = refl
  continue_stuck (suc n) s is beyond =
      rw (continue, handle_exit_same s is beyond) (continue_stuck n s is beyond)
