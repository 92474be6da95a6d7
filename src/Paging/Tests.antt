-- ===== src/Paging/Tests.antt =====
-- The page table entry of paging.rs on concrete entries.
use uhyve.Paging.{
  PageTableEntry, address, get_flags, is_hugepage, is_present, present, set, writable,
}
use uhyve.Prelude.{arith, bit_or, false, none, refl, some, true, ◌%◌, ◌/◌, ◌==◌, ◌≡◌}
use uhyve.Paging.Entry.{join_flags, set-address}

set_unaligned : set 0x1008 writable ≡ none
unfolding set
set_unaligned = refl

set-address_example :
    (e : PageTableEntry) × (set 0x200000 (join_flags 0x82 1) ≡ some e)
    × (address e ≡ 0x200000)
    × (get_flags e ≡ bit_or present (join_flags 0x82 1))
    × (is_present e ≡ true)
    × (is_hugepage e ≡ (0x82 / 128 % 2 == 1))
set-address_example =
    set-address 0x200000 0x82 1 (omega arith) (omega arith) (omega arith) (omega arith)
      (omega arith)

abbrev code_entry : PageTableEntry
code_entry = record { physical_address_and_flags = 0x5003 }

code_entry_small : is_hugepage code_entry ≡ false
unfolding is_hugepage
code_entry_small = refl
