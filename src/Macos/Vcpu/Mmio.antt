-- ===== src/Macos/Vcpu/Mmio.antt =====
-- `emulate_ioapic` of src/macos/vcpu.rs: the guest's accesses to the window of the interrupt
-- controller, which the hypervisor decodes. The disassembler (package burst) is a parameter.
use uhyve.Macos.Vcpu.Fields.{ro_exit_qualific, ro_vmexit_instr_len}
use uhyve.Linux.Vcpu.Translate.{host_address}
use uhyve.Memory.{Memory, load_bytes}
use uhyve.Prelude.{
  Bool, List, Option, bit_and, false, map, none, not, shl64, some, sub64, true, ℕ, ◌==◌, ◌>>=◌,
}
use uhyve.Macos.IoApic
use uhyve.Macos.IoApic.{IoApic, read, write}
use uhyve.Macos.Vcpu.{
  rip, rax, rbx, rcx, rdx, rsi, rdi, rbp, Register, read_register, write_register, read_vmcs,
  UhyveCpu, Vcpu, read_low, write_vmcs,
}
use uhyve.Macos.Vcpu.Msr.{skip}
pub mod Window

abbrev pub ioapic_base : ℕ
ioapic_base = 0xfec0_0000

abbrev pub ioapic_size : ℕ
ioapic_size = 0x1000

-- An operand of an instruction: the registers that the source knows, or another.
pub data Operand : Type 0 where
  imm : (immediate : ℕ) → Operand
  reg_edi reg_esi reg_ebp reg_eax reg_ebx reg_ecx reg_edx : Operand
  other_operand : Operand

pub data Operation : Type 0 where
  mov : Operation
  other_operation : Operation

-- What the disassembler finds; only the first two operands are looked at.
pub record Instruction : Type 0 where
  pub operation : Operation
  pub operand0 : Operand
  pub operand1 : Operand

abbrev pub operand_register : Operand → Option Register
operand_register (imm n) = none
operand_register reg_edi = some rdi
operand_register reg_esi = some rsi
operand_register reg_ebp = some rbp
operand_register reg_eax = some rax
operand_register reg_ebx = some rbx
operand_register reg_ecx = some rcx
operand_register reg_edx = some rdx
operand_register other_operand = none

module _ {V : Type 0} (x : Vcpu V) where
  -- The value that a `MOV` writes; `none` is the panic on another operand.
  abbrev pub operand_value : Operand → UhyveCpu V → Option ℕ
  operand_value (imm n) c = some n
  operand_value op c = operand_register op >>= λ r. some (read_low x r c)

  -- `if write { ... }`
  unfoldable pub ioapic_write :
      (write : Bool) → Instruction → (address : ℕ) → UhyveCpu V → Option (UhyveCpu V)
  ioapic_write false instr address c = some c
  ioapic_write true instr address c = do
    val ← operand_value instr.operand1 c
    ioapic ← IoApic.write c.ioapic (sub64 address ioapic_base) val
    some (record c { ioapic = ioapic })

  -- `if read { ... }`
  unfoldable pub ioapic_read :
      (read : Bool) → Instruction → (address : ℕ) → UhyveCpu V → Option (UhyveCpu V)
  ioapic_read false instr address c = some c
  ioapic_read true instr address c = do
    value ← IoApic.read c.ioapic (sub64 address ioapic_base)
    r ← operand_register instr.operand0
    some (write_register x r value c)

  -- `if let Ok(instr) = disassemble_64(...)`: on an error nothing is emulated.
  unfoldable pub emulate_access :
      (write read : Bool) → Option Instruction → (address : ℕ) → UhyveCpu V → Option (UhyveCpu V)
  unfolding ioapic_write ioapic_read
  emulate_access write read none address c = some c
  emulate_access write read (some instr) address c = elim instr.operation [
    | mov ↦ ioapic_write write instr address c >>= ioapic_read read instr address
    | other_operation ↦ none
  ]

  unfoldable pub emulate_ioapic :
      (disassemble : List ℕ → (at : ℕ) → Option Instruction)
      → Memory
      → (at address : ℕ) → UhyveCpu V
      → Option (UhyveCpu V)
  unfolding emulate_access load_bytes host_address
  emulate_ioapic disassemble m at address c =
      let len = read_vmcs x ro_vmexit_instr_len c in
      let qualification = read_vmcs x ro_exit_qualific c in
      let read = not (bit_and qualification (shl64 1 0) == 0) in
      let write = not (bit_and qualification (shl64 1 1) == 0) in
      let code = load_bytes 8 m (host_address c.vm_start at) in
      emulate_access write read (disassemble code at) address c >>= λ c'. some (skip x at len c')
