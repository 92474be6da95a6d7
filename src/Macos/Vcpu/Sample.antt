-- ===== src/Macos/Vcpu/Sample.antt =====
-- A concrete processor for the tests of macOS: a table of registers and a table of fields.
use uhyve.Macos.IoApic.{IoApic}
use uhyve.Prelude.{if◌then◌else◌, refl, ℕ, ◌==◌}
use uhyve.Macos.IoApic
use uhyve.Macos.Vcpu.{Vcpu, IsStore, UhyveCpu, Register, number, write_register, write_vmcs}

pub record Tables : Type 0 where
  pub registers : ℕ → ℕ
  pub fields : ℕ → ℕ

abbrev pub put : ℕ → ℕ → (ℕ → ℕ) → ℕ → ℕ
put k n f q = if q == k then n else f q

abbrev pub processor : Vcpu Tables
processor = record {
  read_register = λ r v. v.registers (number r);
  write_register = λ r n v. record v { registers = put (number r) n v.registers };
  read_vmcs = λ f v. v.fields f;
  write_vmcs = λ f n v. record v { fields = put f n v.fields };
  enable_native_msr = λ n v. v;
  set_apic_addr = λ n v. v;
}

pub processor-IsStore : IsStore processor
processor-IsStore = record {
  read_write = λ q r n v. refl;
  read_write_vmcs = λ q f n v. refl;
  read_native = λ q n v. refl;
  read_apic = λ q n v. refl;
  vmcs_write = λ f r n v. refl;
  vmcs_write_vmcs = λ f g n v. refl;
  vmcs_native = λ f n v. refl;
  vmcs_apic = λ f n v. refl;
}

abbrev pub blank : Tables
blank = record { registers = λ _. 0; fields = λ _. 0 }

abbrev pub cpu : UhyveCpu Tables
cpu = record { vcpu = blank; vm_start = 0x1000; apic_base = 0xfee0_0000; ioapic = IoApic.new }

-- With a register and two fields set.
abbrev pub with : Register → ℕ → (f m g k : ℕ) → UhyveCpu Tables
with r n f m g k =
    write_register processor r n (write_vmcs processor f m (write_vmcs processor g k cpu))
