-- ===== src/Vm/Tests.antt =====
-- Booting of vm.rs on concrete descriptors and memories.
use uhyve.Prelude.{arith, some, ℕ, ◌≡◌}
use uhyve.Memory.{Memory, load}
use uhyve.Vm.GuestMem.{init_guest_mem}
use uhyve.Vm.GuestMem.Tables.{HoldsTables, HoldsGdt, Elsewhere, init_guest_mem_tables}

abbrev zeroed : Memory
zeroed _ = 0

init_guest_mem_tables_example :
    (m' : Memory) × (init_guest_mem zeroed 0x7000000 ≡ some m')
    × HoldsTables m' 0x7000000
    × HoldsGdt m' 0x7000000
    × ((b : ℕ) → Elsewhere 0x7000000 b → load 8 m' b ≡ load 8 zeroed b)
init_guest_mem_tables_example = init_guest_mem_tables zeroed 0x7000000 (omega arith)
