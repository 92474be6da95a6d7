-- ===== src/Macos/Vcpu/Cpuid.antt =====
-- `emulate_cpuid` of src/macos/vcpu.rs.
use uhyve.Macos.Vcpu.Fields.{ro_vmexit_instr_len}
use uhyve.Memory.{store_bytes}
use uhyve.Prelude.{
  List, [], add64, bit_and, bit_or, if◌then◌else◌, not64, shl64, ℕ, ◌%◌, ◌&&◌, ◌++◌, ◌-◌, ◌==◌, ◌^◌,
  ◌∷◌, codes,
}
use uhyve.Macos.Vcpu.{
  rip, rax, rbx, rcx, rdx, read_register, write_register, read_vmcs, UhyveCpu, Vcpu,
}
use uhyve.Memory.{load, store_bytes}
pub mod Brand
pub mod Features

-- What the instruction reports; the intrinsic `__cpuid_count` is a parameter.
pub record CpuidResult : Type 0 where
  pub eax : ℕ
  pub ebx : ℕ
  pub ecx : ℕ
  pub edx : ℕ

-- `id_reg_values`: four words of zeros, with the text copied over them
abbrev pub id_reg_values : List ℕ → CpuidResult
id_reg_values id =
    let m = store_bytes (λ _. 0) 0 id in
    record { eax = load 4 m 0; ebx = load 4 m 4; ecx = load 4 m 8; edx = load 4 m 12 }

-- The two parts of the name, with the zero that ends it.
abbrev pub first_part : List ℕ
first_part = codes "uhyve - unikerne"

abbrev pub second_part : List ℕ
second_part = codes "l hypervisor" ++ 0 ∷ []

-- `rcx |= 1 << 31` for leaf 1, and `rbx &= !(1 << 2)` for subleaf 0 of leaf 7
abbrev pub adjust : (leaf sub : ℕ) → CpuidResult → CpuidResult
adjust leaf sub result = record result {
  ecx = if leaf == 1 then bit_or result.ecx (shl64 1 31) else result.ecx;
  ebx = if (leaf == 7) && (sub == 0) then bit_and result.ebx (not64 (shl64 1 2)) else result.ebx;
}

module _ {V : Type 0} (x : Vcpu V) where
  unfoldable pub put_result : CpuidResult → UhyveCpu V → UhyveCpu V
  put_result result c = write_register x rdx result.edx (
      write_register x rcx result.ecx
        (write_register x rbx result.ebx (write_register x rax result.eax c)))

  unfoldable pub emulate_cpuid :
      (cpuid : (leaf sub : ℕ) → CpuidResult) → (at : ℕ) → UhyveCpu V → UhyveCpu V
  unfolding put_result store_bytes load
  emulate_cpuid cpuid at c =
      let len = read_vmcs x ro_vmexit_instr_len c in
      let leaf = read_register x rax c in
      let sub = read_register x rcx c in
      let result =
        if leaf == 0x8000_0002
        then id_reg_values first_part
        else if leaf == 0x8000_0003
        then id_reg_values second_part
        else if leaf == 0x8000_0004
        then record { eax = 0; ebx = 0; ecx = 0; edx = 0 }
        else adjust leaf sub (cpuid (leaf % 2 ^ 32) (sub % 2 ^ 32)) in
      write_register x rip (add64 at len) (put_result result c)
