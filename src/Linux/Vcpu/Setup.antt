-- ===== src/Linux/Vcpu/Setup.antt =====
-- src/linux/vcpu.rs, `setup_long_mode`: the registers that a virtual CPU starts with. The structures
-- are KVM's; the bits of the control registers are those of the package x86_64.
use uhyve.Prelude.{bit_or, shl64, ℕ, ◌*◌, ◌-◌, ◌^◌}
pub mod Segments
mod Tests
use uhyve.Consts.{boot_gdt, boot_pml4, boot_info_addr}

-- What the source sets of a segment register; the rest of it is zero.
pub record KvmSegment : Type 0 where
  pub base : ℕ
  pub limit : ℕ
  pub selector : ℕ
  pub type_ : ℕ
  pub present : ℕ
  pub dpl : ℕ
  pub db : ℕ
  pub s : ℕ
  pub l : ℕ
  pub g : ℕ

pub record Sregs : Type 0 where
  pub cs : KvmSegment
  pub ds : KvmSegment
  pub es : KvmSegment
  pub ss : KvmSegment
  pub gdt_base : ℕ
  pub gdt_limit : ℕ
  pub cr0 : ℕ
  pub cr3 : ℕ
  pub cr4 : ℕ
  pub efer : ℕ

-- The general registers that the source sets.
pub record Regs : Type 0 where
  pub rflags : ℕ
  pub rip : ℕ
  pub rdi : ℕ

abbrev pub efer_lme : ℕ
efer_lme = 2 ^ 8

abbrev pub efer_lma : ℕ
efer_lma = 2 ^ 10

abbrev pub efer_nxe : ℕ
efer_nxe = 2 ^ 11

abbrev pub boot_gdt_max : ℕ
boot_gdt_max = 3

-- PROTECTED_MODE_ENABLE, EXTENSION_TYPE, NUMERIC_ERROR and PAGING
abbrev pub cr0_bits : ℕ
cr0_bits = bit_or (bit_or (bit_or 1 (2 ^ 4)) (2 ^ 5)) (2 ^ 31)

abbrev pub physical_address_extension : ℕ
physical_address_extension = 2 ^ 5

abbrev pub code_segment : KvmSegment
code_segment = record {
  base = 0;
  limit = 0xffff_ffff;
  selector = shl64 1 3;
  type_ = 11;
  present = 1;
  dpl = 0;
  db = 0;
  s = 1;
  l = 1;
  g = 1;
}

unfoldable pub setup_long_mode : (entry_point : ℕ) → Sregs → Regs → Sregs × Regs
setup_long_mode entry_point sregs regs =
    let data_segment = record code_segment { type_ = 3; selector = shl64 2 3; l = 0 } in
    (
      record sregs {
        cr0 = cr0_bits;
        cr3 = boot_pml4;
        cr4 = physical_address_extension;
        efer = bit_or (bit_or efer_lme efer_lma) efer_nxe;
        cs = code_segment;
        ds = data_segment;
        es = data_segment;
        ss = data_segment;
        gdt_base = boot_gdt;
        gdt_limit = 8 * boot_gdt_max - 1;
      },
      record regs { rflags = 2; rip = entry_point; rdi = boot_info_addr },
    )
