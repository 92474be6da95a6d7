-- ===== src/Macos/Vcpu/Mmio/Window.antt =====
-- The window of the interrupt controller as the guest sees it.
use uhyve.Macos.Vcpu.Fields.{ro_exit_qualific, ro_vmexit_instr_len}
use uhyve.Macos.Vcpu.Mmio.{
  mov, Instruction, emulate_ioapic, ioapic_base, operand_register, operand_value, Operand, imm,
  other_operand, reg_eax, reg_ebp, reg_ebx, reg_ecx, reg_edi, reg_edx, reg_esi,
}
use uhyve.Linux.Vcpu.Translate.{host_address}
use uhyve.Memory.{Memory, load_bytes, store}
use uhyve.Prelude.{
  Bool, List, Option, bit_and, false, not, refl, shl64, some, sub64, true, ℕ, ◌==◌, ◌≡◌, add64,
  length, ◌%◌, ◌+◌, ◌<◌, ◌^◌, ap, arith, get_elem?, get_elem?-eq-get_or, get_or, get_or-set_self,
  length-set, ltb, none, set, subst, ◌∙◌,
}
use uhyve.Macos.IoApic
use uhyve.Macos.IoApic.{IoApic, read, write}
use uhyve.Macos.Vcpu.{
  Register, write_register, read_vmcs, UhyveCpu, Vcpu, IsStore, number, read_register, rip,
}
use uhyve.Macos.Vcpu.Msr.{skip}

abbrev is_rip : Option Register → Bool
is_rip none = false
is_rip (some r) = number r == number rip

-- No operand that the source knows is the instruction pointer.
not_rip : (op : Operand) → is_rip (operand_register op) ≡ false
not_rip (imm n) = refl
not_rip reg_edi = refl
not_rip reg_esi = refl
not_rip reg_ebp = refl
not_rip reg_eax = refl
not_rip reg_ebx = refl
not_rip reg_ecx = refl
not_rip reg_edx = refl
not_rip other_operand = refl

module _ {V : Type 0} (x : Vcpu V) where
  -- The guest is at a `MOV` that writes to, or reads from, an address, as the exit and the
  -- disassembler say.
  pub record IsMov (disassemble : List ℕ → (at : ℕ) → Option Instruction) (m : Memory) (at : ℕ)
      (instr : Instruction) (writes reads : Bool) (c : UhyveCpu V) : Type 0 where
    pub found : disassemble (load_bytes 8 m (host_address c.vm_start at)) at ≡ some instr
    pub moves : instr.operation ≡ mov
    pub writing : not (bit_and (read_vmcs x ro_exit_qualific c) (shl64 1 1) == 0) ≡ writes
    pub reading : not (bit_and (read_vmcs x ro_exit_qualific c) (shl64 1 0) == 0) ≡ reads

  module _ (disassemble : List ℕ → (at : ℕ) → Option Instruction) (m : Memory) (at address : ℕ)
      (instr : Instruction) (c : UhyveCpu V) where
    pub emulate_ioapic-write :
        {n : ℕ} {ioapic : IoApic}
        → IsMov disassemble m at instr true false c
        → operand_value x instr.operand1 c ≡ some n
        → IoApic.write c.ioapic (sub64 address ioapic_base) n ≡ some ioapic
        → emulate_ioapic x disassemble m at address c
          ≡ some (skip x at (read_vmcs x ro_vmexit_instr_len c) (record c { ioapic = ioapic }))
    unfolding emulate_ioapic
    emulate_ioapic-write is value written =
        rw (is.found, is.moves, is.writing, value, written, is.reading) refl

    pub emulate_ioapic-read :
        {n : ℕ} {r : Register}
        → IsMov disassemble m at instr false true c
        → IoApic.read c.ioapic (sub64 address ioapic_base) ≡ some n
        → operand_register instr.operand0 ≡ some r
        → emulate_ioapic x disassemble m at address c
          ≡ some (skip x at (read_vmcs x ro_vmexit_instr_len c) (write_register x r n c))
    unfolding emulate_ioapic
    emulate_ioapic-read is value target =
        rw (is.found, is.moves, is.writing, is.reading, value, target) refl

  -- If the register that the guest has selected is one of the table, it moves a value to the data window
  -- of the controller, and later, having done whatever it likes but to the controller, moves from the
  -- window to a register: it finds the low 32 bits of the value there. Neither access panics, and the guest goes on behind each instruction.
  pub emulate_ioapic_roundtrip :
      (store : IsStore x) (disassemble : List ℕ → (at : ℕ) → Option Instruction) (m m' : Memory)
      (at at' : ℕ) (instr instr' : Instruction) (guest : UhyveCpu V → UhyveCpu V) (c : UhyveCpu V)
      (n : ℕ) (r : Register)
      → c.ioapic.selector < length c.ioapic.rtbl
      → IsMov disassemble m at instr true false c
      → operand_value x instr.operand1 c ≡ some n
      → ((d : UhyveCpu V) → (guest d).ioapic ≡ d.ioapic)
      → ((d : UhyveCpu V) → IsMov disassemble m' at' instr' false true (guest d))
      → operand_register instr'.operand0 ≡ some r
      → let address = ioapic_base + 0x10 in
        (c1 : UhyveCpu V) × (c2 : UhyveCpu V) × (emulate_ioapic x disassemble m at address c
          ≡ some c1)
        × (read_register x rip c1 ≡ add64 at (read_vmcs x ro_vmexit_instr_len c))
        × (emulate_ioapic x disassemble m' at' address (guest c1) ≡ some c2)
        × (read_register x r c2 ≡ n % 2 ^ 32)
        × (read_register x rip c2 ≡ add64 at' (read_vmcs x ro_vmexit_instr_len (guest c1)))
  unfolding IoApic.write IoApic.read
  emulate_ioapic_roundtrip store disassemble m m' at at' instr instr' guest c n r inside is value
        keeps is' target =
      let v = n % 2 ^ 32 in
      let sel = c.ioapic.selector in
      let table = set c.ioapic.rtbl sel v in
      let ioapic = record c.ioapic { rtbl = table } in
      let c1 = skip x at (read_vmcs x ro_vmexit_instr_len c) (record c { ioapic = ioapic }) in
      let d = guest c1 in
      let test : ltb sel (length c.ioapic.rtbl) ≡ true = ground arith in
      let other : (number r == number rip) ≡ false =
        subst (λ (o : Option Register). is_rip o ≡ false) target (not_rip instr'.operand0) in
      let self : (number r == number r) ≡ true = ground arith in
      let size = length-set c.ioapic.rtbl sel v in
      let here : get_or table sel 0 ≡ v = get_or-set_self c.ioapic.rtbl sel v 0 inside in
      let found : get_elem? table sel ≡ some v =
        get_elem?-eq-get_or table sel 0 (omega (arith, size)) ∙ ap some here in
      let same = keeps c1 in
      let reads : IoApic.read d.ioapic 0x10 ≡ some v = rw same found in
      (
        c1,
        skip x at' (read_vmcs x ro_vmexit_instr_len d) (write_register x r v d),
        emulate_ioapic-write disassemble m at (ioapic_base + 0x10) instr c is value (rw test refl),
        store.read_write rip rip (add64 at (read_vmcs x ro_vmexit_instr_len c)) c.vcpu,
        emulate_ioapic-read disassemble m' at' (ioapic_base + 0x10) instr' d (is' c1) reads target,
        simp (store.read_write, other, self) refl,
        simp store.read_write refl,
      )
