-- ===== src/Macos/Vcpu/Tests.antt =====
-- The virtual CPU of macOS on a concrete processor.
use uhyve.Macos.Vcpu.Sample.{Tables, processor, processor-IsStore, cpu, with}
use uhyve.Macos.Vcpu.Cpuid.Brand.{brand}
use uhyve.Macos.Vcpu.Boot.Alike.{init-setup_long_mode}
use uhyve.Macos.Vcpu.Fields.{
  guest_cs_ar, guest_ds_ar, guest_es_ar, guest_ss_ar, guest_gdtr_base, guest_gdtr_limit,
  guest_ia32_efer, ro_exit_reason, ro_vmexit_instr_len,
}
use uhyve.Macos.Vcpu.Cpuid.{CpuidResult, emulate_cpuid}
use uhyve.Macos.Vcpu.Controls.{VmxCap}
use uhyve.Linux.Vcpu.Setup.Segments.{descriptor_flags_of}
use uhyve.Linux.Vcpu.Setup.{KvmSegment, Regs, Sregs, efer_nxe, setup_long_mode}
use uhyve.Prelude.{codes, drop, refl, take, ℕ, ◌+◌, ◌^◌, ◌≡◌}
use uhyve.Macos.Vcpu.Boot.{init}
use uhyve.Macos.Vcpu.{
  UhyveCpu, rip, rax, rdi, rflags, cr0, cr3, cr4, cs, ds, es, ss, read_register, read_vmcs,
}

abbrev caps : VmxCap
caps = record {
  pinbased = 0x7f_0000_0016;
  procbased = 0xffff_ffff_0401_e172;
  procbased2 = 0xff_0000_0000;
  entry = 0xffff_0000_11ff;
  exit = 0x7f_ffff_0003_6dff;
}

abbrev no_segment : KvmSegment
no_segment = record {
  base = 0;
  limit = 0;
  selector = 0;
  type_ = 0;
  present = 0;
  dpl = 0;
  db = 0;
  s = 0;
  l = 0;
  g = 0;
}

abbrev sregs : Sregs
sregs = record {
  cs = no_segment;
  ds = no_segment;
  es = no_segment;
  ss = no_segment;
  gdt_base = 0;
  gdt_limit = 0;
  cr0 = 0;
  cr3 = 0;
  cr4 = 0;
  efer = 0;
}

abbrev regs : Regs
regs = record { rflags = 0; rip = 0; rdi = 0 }

abbrev booted : UhyveCpu Tables
booted = init processor caps 0x20_0000 cpu

abbrev kvm : Sregs × Regs
kvm = setup_long_mode 0x20_0000 sregs regs

init-setup_long_mode_example :
    (read_register processor rip booted ≡ kvm.1.rip)
    × (read_register processor rdi booted ≡ kvm.1.rdi)
    × (read_register processor rflags booted ≡ kvm.1.rflags)
    × (read_register processor cr0 booted ≡ kvm.0.cr0)
    × (read_register processor cr3 booted ≡ kvm.0.cr3)
    × (read_register processor cr4 booted ≡ kvm.0.cr4 + 2 ^ 13)
    × (read_register processor cs booted ≡ kvm.0.cs.selector)
    × (read_register processor ds booted ≡ kvm.0.ds.selector)
    × (read_register processor es booted ≡ kvm.0.es.selector)
    × (read_register processor ss booted ≡ kvm.0.ss.selector)
    × (read_vmcs processor guest_gdtr_base booted ≡ kvm.0.gdt_base)
    × (read_vmcs processor guest_gdtr_limit booted ≡ kvm.0.gdt_limit)
    × (read_vmcs processor guest_cs_ar booted + 2 ^ 15 ≡ descriptor_flags_of kvm.0.cs)
    × (read_vmcs processor guest_ds_ar booted + 2 ^ 15
        ≡ descriptor_flags_of (record kvm.0.ds { db = 1 }))
    × (read_vmcs processor guest_es_ar booted + 2 ^ 15
        ≡ descriptor_flags_of (record kvm.0.es { db = 1 }))
    × (read_vmcs processor guest_ss_ar booted + 2 ^ 15
        ≡ descriptor_flags_of (record kvm.0.ss { db = 1 }))
    × (read_vmcs processor guest_ia32_efer booted + efer_nxe ≡ kvm.0.efer)
init-setup_long_mode_example =
    init-setup_long_mode processor processor-IsStore caps 0x20_0000 cpu sregs regs

abbrev host_cpuid : (leaf sub : ℕ) → CpuidResult
host_cpuid leaf sub = record { eax = leaf; ebx = 0xffff; ecx = 0xf; edx = sub }

-- The guest asks for the second part of the name, by an instruction of two bytes.
abbrev asks : UhyveCpu Tables
asks = with rax 0x8000_0003 ro_vmexit_instr_len 2 ro_exit_reason 10

second_name : take 12 (drop 16 brand) ≡ codes "l hypervisor"
second_name = refl

-- The guest asks for the features of leaf 1.
abbrev features : UhyveCpu Tables
features = with rax 1 ro_vmexit_instr_len 2 ro_exit_reason 10

abbrev answered : UhyveCpu Tables
answered = emulate_cpuid processor host_cpuid 0x40 features
