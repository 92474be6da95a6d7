-- ===== src/Macos/Vcpu/Cpuid/Brand.antt =====
-- The name of the processor that the guest reads.
use uhyve.Arch.Debug.{same}
use uhyve.Macos.Vcpu.Fields.{ro_vmexit_instr_len}
use uhyve.Macos.Vcpu.Cpuid.{CpuidResult, first_part, id_reg_values, second_part}
use uhyve.Prelude.{
  List, [], codes, replicate, ℕ, ◌%◌, ◌++◌, ◌/◌, ◌∷◌, add64, drop, take, ◌*◌, ◌+◌, ◌<◌, ◌≡◌, ap,
  arith, suc, zero, refl,
}
use uhyve.Macos.Vcpu.Cpuid.{emulate_cpuid, put_result}
use uhyve.Macos.Vcpu.{
  rip, rax, rbx, rcx, rdx, read_register, write_register, read_vmcs, UhyveCpu, Vcpu, IsStore,
}

abbrev pub word_bytes : ℕ → List ℕ
word_bytes n = n % 256 ∷ n / 256 % 256 ∷ n / 256 / 256 % 256 ∷ n / 256 / 256 / 256 ∷ []

-- The sixteen bytes that a leaf of the name stands for, by the processor's manual.
abbrev pub bytes_of : CpuidResult → List ℕ
bytes_of r = word_bytes r.eax ++ word_bytes r.ebx ++ word_bytes r.ecx ++ word_bytes r.edx

-- The 48 bytes of the name: the text, a zero that ends it, and zeros.
abbrev pub brand : List ℕ
brand = codes "uhyve - unikernel hypervisor" ++ replicate 20 0

module _ {V : Type 0} (x : Vcpu V) (store : IsStore x) where
  -- The four registers as the guest reads them.
  abbrev pub result_of : UhyveCpu V → CpuidResult
  result_of c = record {
    eax = read_register x rax c;
    ebx = read_register x rbx c;
    ecx = read_register x rcx c;
    edx = read_register x rdx c;
  }

  -- What the guest finds after `put_result` and the step to the next instruction.
  pub result_of_skip :
      (r : CpuidResult) (n : ℕ) (c : UhyveCpu V)
      → let c' = write_register x rip n (put_result x r c) in
        (result_of c' ≡ r) × (read_register x rip c' ≡ n)
  unfolding put_result
  result_of_skip r n c = simp store.read_write (refl, refl)

  -- The three leaves of the name hold its 48 bytes, and the guest goes on behind the instruction.
  emulate_cpuid-brand :
      (cpuid : (leaf sub : ℕ) → CpuidResult) (at k : ℕ) (c : UhyveCpu V)
      → k < 3
      → read_register x rax c ≡ 0x8000_0002 + k
      → let c' = emulate_cpuid x cpuid at c in
        (bytes_of (result_of c') ≡ take 16 (drop (16 * k) brand))
        × (read_register x rip c' ≡ add64 at (read_vmcs x ro_vmexit_instr_len c))
  unfolding emulate_cpuid
  emulate_cpuid-brand cpuid at zero c below leaf =
      let n = add64 at (read_vmcs x ro_vmexit_instr_len c) in
      let is : read_register x rax c ≡ 0x8000_0002 = omega (arith, leaf) in
      let (same, next) = result_of_skip (id_reg_values first_part) n c in
      rw is (ap bytes_of same, next)
  emulate_cpuid-brand cpuid at (suc zero) c below leaf =
      let n = add64 at (read_vmcs x ro_vmexit_instr_len c) in
      let is : read_register x rax c ≡ 0x8000_0003 = omega (arith, leaf) in
      let (same, next) = result_of_skip (id_reg_values second_part) n c in
      rw is (ap bytes_of same, next)
  emulate_cpuid-brand cpuid at (suc (suc zero)) c below leaf =
      let n = add64 at (read_vmcs x ro_vmexit_instr_len c) in
      let is : read_register x rax c ≡ 0x8000_0004 = omega (arith, leaf) in
      let (same, next) = result_of_skip (record { eax = 0; ebx = 0; ecx = 0; edx = 0 }) n c in
      rw is (ap bytes_of same, next)
  emulate_cpuid-brand cpuid at (suc (suc (suc k))) c below leaf = absurd (omega arith)
