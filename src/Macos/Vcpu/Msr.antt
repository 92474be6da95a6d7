-- ===== src/Macos/Vcpu/Msr.antt =====
-- `emulate_rdmsr`, `emulate_wrmsr` and `emulate_xsetbv` of src/macos/vcpu.rs; `none` is a panic.
use uhyve.Macos.Vcpu.Fields.{guest_ia32_efer, ro_vmexit_instr_len}
use uhyve.Macos.Vcpu.Numbers.{
  ia32_apic_base, ia32_efer, ia32_misc_enable, ia32_x2apic_eoi, ia32_x2apic_icr,
  ia32_x2apic_lvt_error, ia32_x2apic_lvt_lint0, ia32_x2apic_lvt_lint1, ia32_x2apic_lvt_pmi,
  ia32_x2apic_lvt_thermal, ia32_x2apic_lvt_timer, ia32_x2apic_sivr, ia32_x2apic_tpr,
}
use uhyve.Prelude.{
  Bool, Option, add64, bit_and, bit_or, if◌then◌else◌, none, not64, shl64, shr, some, ℕ, ◌==◌, ◌||◌,
}
use uhyve.Macos.Vcpu.{
  rip, rax, rbx, rcx, rdx, xcr0, read_register, write_register, read_vmcs, UhyveCpu, Vcpu, read_low,
  write_vmcs,
}
pub mod Roundtrip

-- The registers of the local APIC to which a write is dropped.
abbrev pub is_x2apic : ℕ → Bool
is_x2apic msr =
    (msr == ia32_x2apic_tpr)
    || ((msr == ia32_x2apic_sivr)
        || ((msr == ia32_x2apic_lvt_timer)
            || ((msr == ia32_x2apic_lvt_thermal)
                || ((msr == ia32_x2apic_lvt_pmi)
                    || ((msr == ia32_x2apic_lvt_lint0)
                        || ((msr == ia32_x2apic_lvt_lint1)
                            || ((msr == ia32_x2apic_lvt_error)
                                || ((msr == ia32_x2apic_eoi) || (msr == ia32_x2apic_icr)))))))))

module _ {V : Type 0} (x : Vcpu V) where
  -- `write_register(RAX, low)`, `write_register(RDX, high)`
  abbrev pub put_pair : (low high : ℕ) → UhyveCpu V → UhyveCpu V
  put_pair low high c = write_register x rdx high (write_register x rax low c)

  -- `(rdx << 32) | rax`, of their low halves
  abbrev pub take_pair : UhyveCpu V → ℕ
  take_pair c = bit_or (shl64 (read_low x rdx c) 32) (read_low x rax c)

  -- `rip + len`
  abbrev pub skip : (at len : ℕ) → UhyveCpu V → UhyveCpu V
  skip at len c = write_register x rip (add64 at len) c

  unfoldable pub emulate_rdmsr : (at : ℕ) → UhyveCpu V → Option (UhyveCpu V)
  emulate_rdmsr at c =
      let len = read_vmcs x ro_vmexit_instr_len c in
      let msr = read_low x rcx c in
      let efer = read_vmcs x guest_ia32_efer c in
      if msr == ia32_efer
      then some (skip at len (put_pair (bit_and efer 0xffff_ffff) (shr efer 32) c))
      else if msr == ia32_misc_enable
      then some (skip at len (put_pair 0 0 c))
      else if msr == ia32_apic_base
      then some (
          skip at len (
            put_pair (bit_and c.apic_base 0xffff_ffff) (bit_and (shr c.apic_base 32) 0xffff_ffff)
              c))
      else none

  -- `self.apic_base = base`, `set_apic_addr(base & !0xFFF)`
  abbrev pub set_apic_base : ℕ → UhyveCpu V → UhyveCpu V
  set_apic_base base c = record c {
    apic_base = base;
    vcpu = x.set_apic_addr (bit_and base (not64 0xfff)) c.vcpu;
  }

  unfoldable pub emulate_wrmsr : (at : ℕ) → UhyveCpu V → Option (UhyveCpu V)
  emulate_wrmsr at c =
      let len = read_vmcs x ro_vmexit_instr_len c in
      let msr = read_low x rcx c in
      if msr == ia32_efer
      then some (skip at len (write_vmcs x guest_ia32_efer (take_pair c) c))
      else if msr == ia32_apic_base
      then some (skip at len (set_apic_base (take_pair c) c))
      else if is_x2apic msr
      then some (skip at len c)
      else none

  unfoldable pub emulate_xsetbv : (at : ℕ) → UhyveCpu V → UhyveCpu V
  emulate_xsetbv at c =
      let len = read_vmcs x ro_vmexit_instr_len c in
      skip at len (write_register x xcr0 (take_pair c) c)
