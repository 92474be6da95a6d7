-- ===== src/Linux/Gdb/Tests.antt =====
-- Breakpoints of linux/gdb/breakpoints.rs on a concrete target.
use uhyve.Linux.Vcpu.Translate.{host_address, join_offset, virt_to_phys, walk}
use uhyve.Linux.Gdb.Breakpoints.Software.{
  key, place, planted, remove_sw_breakpoint-add_sw_breakpoint,
}
use uhyve.Linux.Gdb.Breakpoints.{add_sw_breakpoint, lookup, remove_sw_breakpoint}
use uhyve.Prelude.{none, refl, some, true, ◌≡◌}
use uhyve.Linux.Gdb.Target.{GdbUhyve, new, memory}
use uhyve.Memory.{load, store_bytes, write_byte}

-- No page table at all: every address is translated to its offset in the page at 0.
abbrev target : GdbUhyve
target = new (λ _. 0) 0x7000000

fresh : lookup (key 0x20 1) target.sw_breakpoints ≡ none
unfolding lookup
fresh = refl

same_place : place (planted target 0x20 1) 0x20 ≡ place target 0x20
unfolding memory host_address virt_to_phys walk load store_bytes write_byte join_offset
same_place = refl

remove_sw_breakpoint-add_sw_breakpoint_example :
    remove_sw_breakpoint (add_sw_breakpoint target 0x20 1).1 0x20 1 ≡ some (true, target)
remove_sw_breakpoint-add_sw_breakpoint_example =
    remove_sw_breakpoint-add_sw_breakpoint target 0x20 1 fresh same_place
