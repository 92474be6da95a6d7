-- ===== src/Macos/Vcpu/Cpuid/Features.antt =====
-- The leaves of the host that the guest reads, and the two bits in which they differ.
use uhyve.Macos.Vcpu.Cpuid.Brand.{result_of_skip}
use uhyve.Macos.Vcpu.Fields.{ro_vmexit_instr_len}
use uhyve.Prelude.{
  ==_iff, add64, all_below, all_below_lem, arith, bit_and, bit_or, if◌then◌else◌, not64, refl,
  shl64, true, ℕ, ◌%◌, ◌&&◌, ◌/◌, ◌<◌, ◌==◌, ◌^◌, ◌≡◌, Bool-cases, ap, false, inl, inr, ◌∙◌, ◌≢◌,
}
use uhyve.Macos.Vcpu.{rip, rax, rbx, rcx, rdx, read_register, read_vmcs, UhyveCpu, Vcpu, IsStore}
use uhyve.Macos.Vcpu.Cpuid.{emulate_cpuid, CpuidResult, adjust}
use uhyve.Prelude.Bits.{bit_and_digit, bit_or_digit}

abbrev pub digit : (k n : ℕ) → ℕ
digit k n = n / 2 ^ k % 2

set_mask : all_below 32 (λ j. digit j (shl64 1 31) == (if j == 31 then 1 else 0)) ≡ true
set_mask = refl

clear_mask : all_below 32 (λ j. digit j (not64 (shl64 1 2)) == (if j == 2 then 0 else 1)) ≡ true
clear_mask = refl

set_digit :
    (n j : ℕ) → j < 32 → digit j (bit_or n (shl64 1 31)) ≡ (if j == 31 then 1 else digit j n)
set_digit n j h =
    let m = shl64 1 31 in
    let holds = all_below_lem 32 (λ j. digit j m == (if j == 31 then 1 else 0)) j set_mask h in
    let e = (==_iff (digit j m) (if j == 31 then 1 else 0)).0 holds in
    rw (bit_or_digit j n m, e) (ground arith)

clear_digit :
    (n j : ℕ) → j < 32 → digit j (bit_and n (not64 (shl64 1 2))) ≡ (if j == 2 then 0 else digit j n)
clear_digit n j h =
    let m = not64 (shl64 1 2) in
    let holds = all_below_lem 32 (λ j. digit j m == (if j == 2 then 0 else 1)) j clear_mask h in
    let e = (==_iff (digit j m) (if j == 2 then 0 else 1)).0 holds in
    rw (bit_and_digit j n m, e) (ground arith)

-- Bit `j` of what the guest reads as ECX and as EBX, by the leaf and the bit of the host.
abbrev pub guest_ecx_bit : (leaf j host : ℕ) → ℕ
guest_ecx_bit leaf j host = if leaf == 1 then (if j == 31 then 1 else host) else host

abbrev pub guest_ebx_bit : (leaf sub j host : ℕ) → ℕ
guest_ebx_bit leaf sub j host =
    if (leaf == 7) && (sub == 0) then (if j == 2 then 0 else host) else host

adjust_ecx :
    (leaf sub j : ℕ) (r : CpuidResult)
    → j < 32
    → digit j (adjust leaf sub r).ecx ≡ guest_ecx_bit leaf j (digit j r.ecx)
adjust_ecx leaf sub j r h = elim (Bool-cases (leaf == 1)) [
  | inl this ↦ rw this (set_digit r.ecx j h)
  | inr other ↦ rw other refl
]

adjust_ebx :
    (leaf sub j : ℕ) (r : CpuidResult)
    → j < 32
    → digit j (adjust leaf sub r).ebx ≡ guest_ebx_bit leaf sub j (digit j r.ebx)
adjust_ebx leaf sub j r h = elim (Bool-cases ((leaf == 7) && (sub == 0))) [
  | inl this ↦ rw this (clear_digit r.ebx j h)
  | inr other ↦ rw other refl
]

module _ {V : Type 0} (x : Vcpu V) (store : IsStore x) where
  -- For every leaf but those of the name the guest reads the host's registers, bit by bit, except
  -- that leaf 1 says that there is a hypervisor (bit 31 of ECX) and leaf 7, subleaf 0, that there is
  -- no SGX (bit 2 of EBX); and it goes on behind the instruction.
  emulate_cpuid_features :
      (cpuid : (leaf sub : ℕ) → CpuidResult) (at j : ℕ) (c : UhyveCpu V)
      → j < 32
      → read_register x rax c ≢ 0x8000_0002
      → read_register x rax c ≢ 0x8000_0003
      → read_register x rax c ≢ 0x8000_0004
      → let leaf = read_register x rax c in
        let sub = read_register x rcx c in
        let host = cpuid (leaf % 2 ^ 32) (sub % 2 ^ 32) in
        let c' = emulate_cpuid x cpuid at c in
        (read_register x rax c' ≡ host.eax)
        × (read_register x rdx c' ≡ host.edx)
        × (digit j (read_register x rcx c') ≡ guest_ecx_bit leaf j (digit j host.ecx))
        × (digit j (read_register x rbx c') ≡ guest_ebx_bit leaf sub j (digit j host.ebx))
        × (read_register x rip c' ≡ add64 at (read_vmcs x ro_vmexit_instr_len c))
  unfolding emulate_cpuid
  emulate_cpuid_features cpuid at j c hj no2 no3 no4 =
      let leaf = read_register x rax c in
      let sub = read_register x rcx c in
      let host = cpuid (leaf % 2 ^ 32) (sub % 2 ^ 32) in
      let n = add64 at (read_vmcs x ro_vmexit_instr_len c) in
      let test2 : (leaf == 0x8000_0002) ≡ false = ground arith in
      let test3 : (leaf == 0x8000_0003) ≡ false = ground arith in
      let test4 : (leaf == 0x8000_0004) ≡ false = ground arith in
      let (same, next) = result_of_skip x store (adjust leaf sub host) n c in
      rw (test2, test3, test4)
        (
          ap (λ (r : CpuidResult). r.eax) same,
          ap (λ (r : CpuidResult). r.edx) same,
          ap (λ (r : CpuidResult). digit j r.ecx) same ∙ adjust_ecx leaf sub j host hj,
          ap (λ (r : CpuidResult). digit j r.ebx) same ∙ adjust_ebx leaf sub j host hj,
          next,
        )
