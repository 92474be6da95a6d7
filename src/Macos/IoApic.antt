-- ===== src/Macos/IoApic.antt =====
-- src/macos/ioapic.rs: the interrupt controller, a table of registers behind a selector.
use uhyve.Prelude.{
  List, Option, bit_or, get_elem?, if◌then◌else◌, length, ltb, none, replicate, set, shl64, some,
  suc, zero, ℕ, ◌%◌, ◌&&◌, ◌*◌, ◌+◌, ◌-◌, ◌==◌, ◌^◌,
}
pub mod Registers
mod Tests

abbrev pub redir_entries : ℕ
redir_entries = 24

abbrev pub ioapic_reg_table : ℕ
ioapic_reg_table = 0x10

pub record IoApic : Type 0 where
  pub selector : ℕ
  pub rtbl : List ℕ

-- `for i in IOAPIC_REG_TABLE..REDIR_ENTRIES`, from `i` with `left` rounds to go
abbrev pub mask_all : (left i : ℕ) → List ℕ → List ℕ
mask_all zero i rtbl = rtbl
mask_all (suc left) i rtbl = mask_all left (i + 1) (set rtbl i 0x1_0000)

unfoldable pub new : IoApic
new =
    let rtbl = replicate (ioapic_reg_table + 2 * redir_entries) 0 in
    let version = bit_or 0x11 (shl64 (redir_entries - 1) 16) in
    record {
      selector = 0;
      rtbl = mask_all (redir_entries - ioapic_reg_table) ioapic_reg_table (set rtbl 1 version);
    }

-- `none` is a panic: a register beyond the table, or another offset.
unfoldable pub write : IoApic → (offset value : ℕ) → Option IoApic
write apic offset value =
    let rtbl = set apic.rtbl apic.selector (value % 2 ^ 32) in
    if offset == 0
    then some (record apic { selector = value })
    else if (offset == 0x10) && ltb apic.selector (length apic.rtbl)
    then some (record apic { rtbl = rtbl })
    else none

unfoldable pub read : IoApic → (offset : ℕ) → Option ℕ
read apic offset =
    if offset == 0
    then some apic.selector
    else if offset == 0x10
    then get_elem? apic.rtbl apic.selector
    else none
