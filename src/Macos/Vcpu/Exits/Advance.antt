-- ===== src/Macos/Vcpu/Exits/Advance.antt =====
-- Where the guest goes on after an exit, and what the exits leave alone.
use uhyve.Macos.Vcpu.Exits.{handle_exit, handle_exception, handle_io, handle_violation}
use uhyve.Macos.Vcpu.Numbers.{
  reason_cpuid, reason_ept_violation, reason_exc_nmi, reason_io, reason_irq, reason_rdmsr,
  reason_rdrand, reason_wrmsr, reason_xsetbv,
}
use uhyve.Macos.Vcpu.Mmio.{ioapic_base, ioapic_size}
use uhyve.Macos.Vcpu.Fields.{guest_physical_address, ro_exit_reason}
use uhyve.Prelude.{
  Bool, Option, false, true, ◌≡◌, bit_and, inl, inr, ℕ, refl, ==_iff, Bool-cases, leb, ltb, not,
  ◌&&◌, ◌+◌, ◌==◌, ◌||◌,
}
use uhyve.Macos.Vcpu.{rip, read_register, read_vmcs, UhyveCpu, Vcpu, IsStore}
use uhyve.Macos.Vcpu.Machine.{Packages, CpuState, with_cpu}
use uhyve.Macos.Vcpu.Exits.Behind.{
  Goes, Goes-if, IfSome, IsBehind, aborting, emulate_cpuid-IsBehind, emulate_ioapic-IsBehind,
  emulate_rdmsr-IsBehind, emulate_wrmsr-IsBehind, emulate_xsetbv-IsBehind, no_value, onward,
  output-IsBehind, stopped, value,
}

-- The exits that the hypervisor does nothing about: an interrupt, RDRAND, and an access to memory
-- that is not there, outside of the window of the interrupt controller.
abbrev pub is_idle : (reason gpa : ℕ) → Bool
is_idle reason gpa =
    (reason == reason_irq)
    || ((reason == reason_rdrand)
        || ((reason == reason_ept_violation)
            && not (leb ioapic_base gpa && ltb gpa (ioapic_base + ioapic_size))))

module _ {V W : Type 0} (x : Vcpu V) (env : Packages W) (store : IsStore x) where
  -- An idle exit changes nothing; after every other one the guest goes on behind its instruction.
  abbrev pub After : (idle : Bool) → (s s' : CpuState V W) → Type 0
  After true s s' = s' ≡ s
  After false s s' = IsBehind x env store s.cpu s'.cpu

  handle_exception-After :
      (idle : Bool) (s : CpuState V W) → Goes (After idle s) (handle_exception x env s)
  unfolding handle_exception
  handle_exception-After idle s = search (Goes-if, stopped, aborting)

  Goes-with_cpu :
      (s : CpuState V W) {o : Option (UhyveCpu V)}
      → IfSome (IsBehind x env store s.cpu) o
      → Goes (After false s) (with_cpu s o)
  Goes-with_cpu s no_value = aborting
  Goes-with_cpu s (value h) = onward h

  handle_io-After :
      (s : CpuState V W) → Goes (After false s) (handle_io x env (read_register x rip s.cpu) s)
  unfolding handle_io
  handle_io-After s = search (Goes-if, aborting, output-IsBehind x env store)

  handle_violation-After :
      (s : CpuState V W)
      → let gpa = read_vmcs x guest_physical_address s.cpu in
        Goes
          (After (is_idle reason_ept_violation gpa) s)
          (handle_violation x env (read_register x rip s.cpu) s)
  unfolding handle_violation
  handle_violation-After s =
      let gpa = read_vmcs x guest_physical_address s.cpu in
      elim (Bool-cases (leb ioapic_base gpa && ltb gpa (ioapic_base + ioapic_size))) [
        | inl within ↦
            rw within (Goes-with_cpu s (emulate_ioapic-IsBehind x env store s.memory gpa s.cpu))
        | inr beyond ↦ rw beyond (onward refl)
      ]

  -- Whenever the hypervisor enters the guest again after an exit, the guest is behind its instruction,
  -- except after the idle exits, which leave everything as it was.
  pub handle_exit-After :
      (s : CpuState V W)
      → let reason = bit_and (read_vmcs x ro_exit_reason s.cpu) 0xffff in
        let gpa = read_vmcs x guest_physical_address s.cpu in
        Goes (After (is_idle reason gpa) s) (handle_exit x env s)
  unfolding handle_exit
  handle_exit-After s =
      let r = bit_and (read_vmcs x ro_exit_reason s.cpu) 0xffff in
      let c = s.cpu in
      elim (Bool-cases (r == reason_exc_nmi)) [
        | inl is ↦ rw ((==_iff r reason_exc_nmi).0 is) (handle_exception-After false s)
        | inr n0 ↦ elim (Bool-cases (r == reason_cpuid)) [
          | inl is ↦
              rw ((==_iff r reason_cpuid).0 is) (onward (emulate_cpuid-IsBehind x env store c))
          | inr n1 ↦ elim (Bool-cases (r == reason_rdmsr)) [
            | inl is ↦
                rw ((==_iff r reason_rdmsr).0 is)
                  (Goes-with_cpu s (emulate_rdmsr-IsBehind x env store c))
            | inr n2 ↦ elim (Bool-cases (r == reason_wrmsr)) [
              | inl is ↦
                  rw ((==_iff r reason_wrmsr).0 is)
                    (Goes-with_cpu s (emulate_wrmsr-IsBehind x env store c))
              | inr n3 ↦ elim (Bool-cases (r == reason_xsetbv)) [
                | inl is ↦
                    rw ((==_iff r reason_xsetbv).0 is)
                      (onward (emulate_xsetbv-IsBehind x env store c))
                | inr n4 ↦ elim (Bool-cases (r == reason_irq)) [
                  | inl is ↦ rw ((==_iff r reason_irq).0 is) (onward refl)
                  | inr n5 ↦ elim (Bool-cases (r == reason_ept_violation)) [
                    | inl is ↦ rw ((==_iff r reason_ept_violation).0 is) (handle_violation-After s)
                    | inr n6 ↦ elim (Bool-cases (r == reason_rdrand)) [
                      | inl is ↦ rw ((==_iff r reason_rdrand).0 is) (onward refl)
                      | inr n7 ↦ elim (Bool-cases (r == reason_io)) [
                        | inl is ↦ rw ((==_iff r reason_io).0 is) (handle_io-After s)
                        | inr n8 ↦ rw (n0, n1, n2, n3, n4, n5, n6, n7, n8) aborting
                      ]
                    ]
                  ]
                ]
              ]
            ]
          ]
        ]
      ]
