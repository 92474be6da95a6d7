-- ===== src/Macos/Vcpu/Msr/Roundtrip.antt =====
-- The model-specific registers that the guest can write and read again.
use uhyve.Macos.Vcpu.Fields.{guest_ia32_efer, ro_vmexit_instr_len}
use uhyve.Macos.Vcpu.Numbers.{ia32_apic_base, ia32_efer}
use uhyve.Macos.Vcpu.Msr.{skip, emulate_rdmsr, emulate_wrmsr, put_pair, set_apic_base, take_pair}
use uhyve.Prelude.{
  add64, arith, bit_and, inl, inr, refl, shr, some, ℕ, ◌%◌, ◌*◌, ◌+◌, ◌^◌, ◌∙◌, ◌≡◌, ◌⊎◌,
}
use uhyve.Macos.Vcpu.{
  rip, rax, rcx, rdx, read_register, read_vmcs, UhyveCpu, Vcpu, IsStore, read_low, write_vmcs,
}
use uhyve.Prelude.Bits.{bit_and_mask, bit_or_fields}

module _ {V : Type 0} (x : Vcpu V) (store : IsStore x) where
  abbrev low : ℕ → ℕ
  low n = n % 2 ^ 32

  pub take_pair_lem :
      (c : UhyveCpu V)
      → take_pair x c ≡ low (read_register x rdx c) * 2 ^ 32 + low (read_register x rax c)
  take_pair_lem c =
      let hi = read_register x rdx c in
      let lo = read_register x rax c in
      ground (arith, bit_and_mask 32 hi, bit_and_mask 32 lo, bit_or_fields 32 (low hi) (low lo))

  halves :
      (c : UhyveCpu V)
      → let n = take_pair x c in
        (bit_and n 0xffff_ffff ≡ low (read_register x rax c))
        × (shr n 32 ≡ low (read_register x rdx c))
        × (bit_and (shr n 32) 0xffff_ffff ≡ low (read_register x rdx c))
  halves c =
      let n = take_pair x c in
      omega (arith, take_pair_lem c, bit_and_mask 32 n, bit_and_mask 32 (shr n 32))

  -- What the guest writes to EFER or to the base of the APIC is what it reads there later, whatever
  -- else it does in between: the low halves of RAX and RDX. Neither access panics, and the guest
  -- goes on behind each.
  pub emulate_rdmsr-emulate_wrmsr :
      (at at' msr : ℕ) (guest : UhyveCpu V → UhyveCpu V) (c : UhyveCpu V)
      → (msr ≡ ia32_efer) ⊎ (msr ≡ ia32_apic_base)
      → ((d : UhyveCpu V) → (guest d).apic_base ≡ d.apic_base)
      → ((d : UhyveCpu V) → read_vmcs x guest_ia32_efer (guest d) ≡ read_vmcs x guest_ia32_efer d)
      → ((d : UhyveCpu V) → read_low x rcx (guest d) ≡ msr)
      → read_low x rcx c ≡ msr
      → (c1 : UhyveCpu V) × (c2 : UhyveCpu V) × (emulate_wrmsr x at c ≡ some c1)
        × (read_register x rip c1 ≡ add64 at (read_vmcs x ro_vmexit_instr_len c))
        × (emulate_rdmsr x at' (guest c1) ≡ some c2)
        × (read_register x rax c2 ≡ read_register x rax c % 2 ^ 32)
        × (read_register x rdx c2 ≡ read_register x rdx c % 2 ^ 32)
        × (read_register x rip c2 ≡ add64 at' (read_vmcs x ro_vmexit_instr_len (guest c1)))
  unfolding emulate_wrmsr emulate_rdmsr
  emulate_rdmsr-emulate_wrmsr at at' msr guest c (inl is) keeps_base keeps_efer selects h =
      let len = read_vmcs x ro_vmexit_instr_len c in
      let n = take_pair x c in
      let c1 = skip x at len (write_vmcs x guest_ia32_efer n c) in
      let d = guest c1 in
      let len' = read_vmcs x ro_vmexit_instr_len d in
      let e : read_low x rcx c ≡ ia32_efer = h ∙ is in
      let e' : read_low x rcx d ≡ ia32_efer = selects c1 ∙ is in
      let holds : read_vmcs x guest_ia32_efer d ≡ n =
        keeps_efer c1 ∙ (simp (store.vmcs_write, store.vmcs_write_vmcs) refl) in
      let (l, r, _) = halves c in
      (
        c1,
        skip x at' len' (put_pair x (bit_and n 0xffff_ffff) (shr n 32) d),
        rw e refl,
        simp store.read_write refl,
        rw (e', holds) refl,
        simp store.read_write l,
        simp store.read_write r,
        simp store.read_write refl,
      )
  emulate_rdmsr-emulate_wrmsr at at' msr guest c (inr is) keeps_base keeps_efer selects h =
      let len = read_vmcs x ro_vmexit_instr_len c in
      let n = take_pair x c in
      let c1 = skip x at len (set_apic_base x n c) in
      let d = guest c1 in
      let len' = read_vmcs x ro_vmexit_instr_len d in
      let e : read_low x rcx c ≡ ia32_apic_base = h ∙ is in
      let e' : read_low x rcx d ≡ ia32_apic_base = selects c1 ∙ is in
      let holds : d.apic_base ≡ n = keeps_base c1 in
      let (l, _, r) = halves c in
      (
        c1,
        skip x at' len' (put_pair x (bit_and n 0xffff_ffff) (bit_and (shr n 32) 0xffff_ffff) d),
        rw e refl,
        simp store.read_write refl,
        rw (e', holds) refl,
        simp store.read_write l,
        simp store.read_write r,
        simp store.read_write refl,
      )
