-- ===== src/Macos/Vcpu/Exits/Tests.antt =====
-- The exits of the virtual CPU of macOS on a concrete processor.
use uhyve.Linux.Vcpu.Exits.Sample.{nothing}
use uhyve.Memory.{load}
use uhyve.Macos.Vcpu.Mmio.Window.{emulate_ioapic_roundtrip}
use uhyve.Macos.Vcpu.Msr.Roundtrip.{emulate_rdmsr-emulate_wrmsr}
use uhyve.Macos.Vcpu.Fields.{
  ro_exit_qualific, ro_exit_reason, ro_vmexit_instr_len, guest_physical_address,
}
use uhyve.Macos.IoApic.{IoApic}
use uhyve.Prelude.{
  List, Option, add64, arith, if◌then◌else◌, inl, length, refl, some, ℕ, ◌%◌, ◌+◌, ◌<◌, ◌==◌, ◌^◌,
  ◌≡◌, [], inr, replicate, ◌++◌,
}
use uhyve.Macos.Vcpu.Sample.{Tables, processor, processor-IsStore, cpu, with}
use uhyve.Vm.Hypercalls
use uhyve.Linux.Vcpu.Translate.{host_address}
use uhyve.Vm.Hypercalls.{Libc, close, exit, lseek, open_file, unlink}
use uhyve.Macos.IoApic
use uhyve.Macos.Vcpu.Exits.{handle_exit, continue}
use uhyve.Macos.Vcpu.Exits.Advance.{After, is_idle, handle_exit-After}
use uhyve.Macos.Vcpu.Exits.Behind.{Goes}
use uhyve.Macos.Vcpu.Exits.Stop.{continue_stuck}
use uhyve.Macos.Vcpu.Output.{data_addr}
use uhyve.Macos.Vcpu.Machine.{Packages, CpuState, ran, waits}
use uhyve.Macos.Vcpu.Mmio.{
  mov, reg_eax, reg_ebx, other_operand, Instruction, emulate_ioapic, ioapic_base,
}
use uhyve.Macos.Vcpu.{
  UhyveCpu, rip, rax, rbx, rcx, rdx, read_register, read_vmcs, write_register, write_vmcs,
}
use uhyve.Macos.Vcpu.Msr.{emulate_rdmsr, emulate_wrmsr}

-- The guest writes EFER, and reads it at once.
abbrev writes_efer : UhyveCpu Tables
writes_efer = write_register processor rdx 5 (
    write_register processor rax 0x501
      (with rcx 0xc000_0080 ro_vmexit_instr_len 2 ro_exit_reason 32))

abbrev reads_efer : UhyveCpu Tables
reads_efer = with rcx 0xc000_0080 ro_vmexit_instr_len 2 ro_exit_reason 31

abbrev selects_efer : UhyveCpu Tables → UhyveCpu Tables
selects_efer c = write_register processor rcx 0xc000_0080 c

emulate_rdmsr-emulate_wrmsr_example :
    (c1 : UhyveCpu Tables) × (c2 : UhyveCpu Tables) × (emulate_wrmsr processor 0x40 writes_efer
      ≡ some c1)
    × (read_register processor rip c1
        ≡ add64 0x40 (read_vmcs processor ro_vmexit_instr_len writes_efer))
    × (emulate_rdmsr processor 0x42 (selects_efer c1) ≡ some c2)
    × (read_register processor rax c2 ≡ read_register processor rax writes_efer % 2 ^ 32)
    × (read_register processor rdx c2 ≡ read_register processor rdx writes_efer % 2 ^ 32)
    × (read_register processor rip c2
        ≡ add64 0x42 (read_vmcs processor ro_vmexit_instr_len (selects_efer c1)))
emulate_rdmsr-emulate_wrmsr_example =
    emulate_rdmsr-emulate_wrmsr processor processor-IsStore 0x40 0x42 0xc000_0080 selects_efer
      writes_efer (inl refl) (λ d. refl) (λ d. refl) (λ d. refl) refl

-- At 0x40 the guest has `mov [window], eax`, at 0x44 `mov ebx, [window]`.
abbrev store_eax : Instruction
store_eax = record { operation = mov; operand0 = other_operand; operand1 = reg_eax }

abbrev load_ebx : Instruction
load_ebx = record { operation = mov; operand0 = reg_ebx; operand1 = other_operand }

abbrev decode : List ℕ → (at : ℕ) → Option Instruction
decode code at = if at == 0x40 then some store_eax else some load_ebx

abbrev stores : UhyveCpu Tables
stores = with rax 0x1_0000_0007 ro_vmexit_instr_len 3 ro_exit_qualific 2

abbrev then_loads : UhyveCpu Tables → UhyveCpu Tables
then_loads c = write_vmcs processor ro_exit_qualific 1 c

size_of_new : IoApic.new.selector < length IoApic.new.rtbl
unfolding IoApic.new
size_of_new = omega arith

emulate_ioapic_roundtrip_example :
    (c1 : UhyveCpu Tables) × (c2 : UhyveCpu Tables) × (emulate_ioapic processor decode
        (λ _. 0)
        0x40
        (ioapic_base + 0x10)
        stores
      ≡ some c1)
    × (read_register processor rip c1 ≡ add64 0x40 (read_vmcs processor ro_vmexit_instr_len stores))
    × (emulate_ioapic processor decode (λ _. 0) 0x44 (ioapic_base + 0x10) (then_loads c1) ≡ some c2)
    × (read_register processor rbx c2 ≡ 7 % 2 ^ 32)
    × (read_register processor rip c2
        ≡ add64 0x44 (read_vmcs processor ro_vmexit_instr_len (then_loads c1)))
emulate_ioapic_roundtrip_example =
    emulate_ioapic_roundtrip processor processor-IsStore decode (λ _. 0) (λ _. 0) 0x40 0x44
      store_eax load_ebx then_loads stores 7 rbx size_of_new
      (record { found = refl; moves = refl; writing = refl; reading = refl }) refl (λ d. refl)
      (λ d. record { found = refl; moves = refl; writing = refl; reading = refl }) refl

abbrev packages : Packages (List ℕ)
packages = record {
  cpuid = λ leaf sub. record { eax = 0; ebx = 0; ecx = 0; edx = 0 };
  disassemble = decode;
  path = [];
  arguments = [];
  vars = [];
  libc = nothing;
  print = λ bytes w. some (w ++ bytes);
  fuel = 100;
}

abbrev state : UhyveCpu Tables → CpuState Tables (List ℕ)
state c = record { cpu = c; memory = λ a. if a == 0x1020 then 7 else 0; world = [] }

abbrev exit_cpu : UhyveCpu Tables
exit_cpu = with rax 0x20 ro_exit_reason 30 ro_exit_qualific 0x540_0000

abbrev idle_cpu : UhyveCpu Tables
idle_cpu = with rax 0 ro_exit_reason 1 ro_vmexit_instr_len 0

handle_exit-After_example :
    Goes
      (After processor packages processor-IsStore (is_idle 0x1f 0) (state reads_efer))
      (handle_exit processor packages (state reads_efer))
handle_exit-After_example =
    handle_exit-After processor packages processor-IsStore (state reads_efer)

exit_code : Hypercalls.exit (state cpu).memory (data_addr processor packages (state exit_cpu)) ≡ 7
unfolding Hypercalls.exit load host_address
exit_code = refl

abbrev lost : UhyveCpu Tables
lost = with rax 0 ro_exit_reason 48 guest_physical_address 0x1_0000_0000

continue_stuck_example :
    continue processor packages (replicate 3 (ran lost.vcpu (state cpu).memory)) (state lost)
    ≡ waits
continue_stuck_example = continue_stuck processor packages 3 (state lost) refl (inr (omega arith))
