-- ===== src/Paging.antt =====
-- src/paging.rs: page table entries and the sizes of pages. `usize` has 64 bits.
pub mod Entry
pub mod Masks
mod Tests
use uhyve.Prelude.{
  ℕ, ◌-◌, ◌*◌, ◌%◌, ◌^◌, not64, Bool, Option, none, some, ◌==◌, if◌then◌else◌, bit_and, bit_or,
}

abbrev pub page_bits : ℕ
page_bits = 12

abbrev pub page_map_bits : ℕ
page_map_bits = 9

-- The flags of `PageTableEntryFlags` that the code uses, by their bits.
abbrev pub present : ℕ
present = 1

abbrev pub writable : ℕ
writable = 2 ^ 1

abbrev pub huge_page : ℕ
huge_page = 2 ^ 7

abbrev pub execute_disable : ℕ
execute_disable = 2 ^ 63

abbrev pub base_page_size : ℕ
base_page_size = 4096

abbrev pub large_page_size : ℕ
large_page_size = 2 * 1024 * 1024

pub record PageTableEntry : Type 0 where
  pub physical_address_and_flags : ℕ

unfoldable pub check_flags : PageTableEntry → ℕ → Bool
check_flags e flags = bit_and e.physical_address_and_flags flags == flags

unfoldable pub is_present : PageTableEntry → Bool
unfolding check_flags
is_present e = check_flags e present

unfoldable pub is_hugepage : PageTableEntry → Bool
unfolding check_flags
is_hugepage e = check_flags e huge_page

unfoldable pub address : PageTableEntry → ℕ
unfolding is_hugepage
address e =
    let mask = if is_hugepage e then large_page_size - 1 else base_page_size - 1 in
    bit_and (bit_and e.physical_address_and_flags (not64 mask)) (not64 execute_disable)

-- `flags.contains(HUGE_PAGE)` picks the alignment that is asserted; `none` is the panic of the
-- assertion.
unfoldable pub set : ℕ → ℕ → Option PageTableEntry
set physical_address flags =
    let size = if bit_and flags huge_page == huge_page then large_page_size else base_page_size in
    if physical_address % size == 0
    then some
        (record { physical_address_and_flags = bit_or physical_address (bit_or present flags) })
    else none

abbrev pub flags_mask : ℕ
flags_mask = bit_or (base_page_size - 1) execute_disable

unfoldable pub set_flags : PageTableEntry → ℕ → PageTableEntry
set_flags e flags =
    let kept = bit_and e.physical_address_and_flags (not64 flags_mask) in
    record { physical_address_and_flags = bit_or kept (bit_and flags flags_mask) }

unfoldable pub get_flags : PageTableEntry → ℕ
get_flags e = bit_and e.physical_address_and_flags flags_mask
