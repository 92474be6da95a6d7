-- ===== src/Macos/Vcpu.antt =====
-- src/macos/vcpu.rs: the virtual CPU on macOS. The package xhypervisor, which keeps the registers
-- and the control structure (VMCS) of the processor, is the record `Vcpu`.
use uhyve.Arch.Debug.{read_write}
use uhyve.Macos.IoApic.{IoApic}
use uhyve.Prelude.{bit_and, if◌then◌else◌, ℕ, ◌==◌, ◌≡◌}
pub mod Fields
pub mod Numbers
pub mod Controls
pub mod Boot
pub mod Translate
pub mod Cpuid
pub mod Msr
pub mod Mmio
pub mod Machine
pub mod Output
pub mod Exits
mod Sample
mod Tests

-- The registers that the source names.
pub data Register : Type 0 where
  rip rflags rsp rbp rax rbx rcx rdx rsi rdi : Register
  r8 r9 r10 r11 r12 r13 r14 r15 : Register
  cs ds es ss fs gs : Register
  cr0 cr3 cr4 dr7 xcr0 : Register

abbrev pub number : Register → ℕ
number rip = 0
number rflags = 1
number rsp = 2
number rbp = 3
number rax = 4
number rbx = 5
number rcx = 6
number rdx = 7
number rsi = 8
number rdi = 9
number r8 = 10
number r9 = 11
number r10 = 12
number r11 = 13
number r12 = 14
number r13 = 15
number r14 = 16
number r15 = 17
number cs = 18
number ds = 19
number es = 20
number ss = 21
number fs = 22
number gs = 23
number cr0 = 24
number cr3 = 25
number cr4 = 26
number dr7 = 27
number xcr0 = 28

-- The calls of the package on a virtual CPU, `V`, that is running: none of them fails on one. A
-- field of the VMCS is its encoding.
pub record Vcpu (V : Type 0) : Type 0 where
  pub read_register : Register → V → ℕ
  pub write_register : Register → ℕ → V → V
  pub read_vmcs : (field : ℕ) → V → ℕ
  pub write_vmcs : (field value : ℕ) → V → V
  pub enable_native_msr : (msr : ℕ) → V → V
  pub set_apic_addr : (addr : ℕ) → V → V

-- What the package documents of them: a read finds what was written last, and registers, fields,
-- native model-specific registers and the address of the APIC are kept apart.
pub record IsStore {V : Type 0} (x : Vcpu V) : Type 0 where
  pub read_write :
      (q r : Register) (n : ℕ) (v : V)
      → x.read_register q (x.write_register r n v)
        ≡ (if number q == number r then n else x.read_register q v)
  pub read_write_vmcs :
      (q : Register) (f n : ℕ) (v : V)
      → x.read_register q (x.write_vmcs f n v) ≡ x.read_register q v
  pub read_native :
      (q : Register) (n : ℕ) (v : V)
      → x.read_register q (x.enable_native_msr n v) ≡ x.read_register q v
  pub read_apic :
      (q : Register) (n : ℕ) (v : V) → x.read_register q (x.set_apic_addr n v) ≡ x.read_register q v
  pub vmcs_write :
      (f : ℕ) (r : Register) (n : ℕ) (v : V)
      → x.read_vmcs f (x.write_register r n v) ≡ x.read_vmcs f v
  pub vmcs_write_vmcs :
      (f g n : ℕ) (v : V)
      → x.read_vmcs f (x.write_vmcs g n v) ≡ (if f == g then n else x.read_vmcs f v)
  pub vmcs_native : (f n : ℕ) (v : V) → x.read_vmcs f (x.enable_native_msr n v) ≡ x.read_vmcs f v
  pub vmcs_apic : (f n : ℕ) (v : V) → x.read_vmcs f (x.set_apic_addr n v) ≡ x.read_vmcs f v

abbrev pub apic_default_base : ℕ
apic_default_base = 0xfee0_0000

-- The number of the CPU and the path of the kernel play no part in what it does.
pub record UhyveCpu (V : Type 0) : Type 0 where
  pub vcpu : V
  pub vm_start : ℕ
  pub apic_base : ℕ
  pub ioapic : IoApic

abbrev pub new : {V : Type 0} → V → (vm_start : ℕ) → IoApic → UhyveCpu V
new vcpu vm_start ioapic = record {
  vcpu = vcpu;
  vm_start = vm_start;
  apic_base = apic_default_base;
  ioapic = ioapic;
}

module _ {V : Type 0} (x : Vcpu V) where
  abbrev pub read_register : Register → UhyveCpu V → ℕ
  read_register r c = x.read_register r c.vcpu

  abbrev pub write_register : Register → ℕ → UhyveCpu V → UhyveCpu V
  write_register r n c = record c { vcpu = x.write_register r n c.vcpu }

  abbrev pub read_vmcs : ℕ → UhyveCpu V → ℕ
  read_vmcs f c = x.read_vmcs f c.vcpu

  abbrev pub write_vmcs : (field value : ℕ) → UhyveCpu V → UhyveCpu V
  write_vmcs f n c = record c { vcpu = x.write_vmcs f n c.vcpu }

  -- `self.vcpu.read_register(r)? & 0xFFFFFFFF`
  abbrev pub read_low : Register → UhyveCpu V → ℕ
  read_low r c = bit_and (read_register r c) 0xffff_ffff
