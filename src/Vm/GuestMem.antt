-- ===== src/Vm/GuestMem.antt =====
-- src/vm.rs, `init_guest_mem`: the descriptor and page tables that the guest boots with.
pub mod Tables
use uhyve.Prelude.{ℕ, zero, suc, ◌+◌, ◌*◌, Option, none, some, ◌>>=◌, bit_or, add64}
use uhyve.Consts.{boot_gdt, boot_pml4, boot_pdpte, boot_pde}
use uhyve.Memory.{Memory, store}
use uhyve.Paging.{PageTableEntry, set, present, writable, huge_page, large_page_size}
use uhyve.Vm.Gdt.{create_gdt_entry}

-- `table.entries[i].set(address, flags)`: a table of 512 words of 8 bytes.
unfoldable pub set_entry : Memory → ℕ → ℕ → ℕ → ℕ → Option Memory
set_entry m table i address flags = do
  e ← set address flags
  some (store 8 m (add64 table (8 * i)) e.physical_address_and_flags)

-- `for i in 0..512`, from index `i` with `left` rounds to go
unfoldable pub map_pages : ℕ → ℕ → Memory → ℕ → Option Memory
unfolding set_entry
map_pages zero i m pde = some m
map_pages (suc left) i m pde = do
  m' ← set_entry m pde i (i * large_page_size) (bit_or (bit_or present writable) huge_page)
  map_pages left (i + 1) m' pde

-- The three descriptors.
unfoldable pub init_gdt : Memory → ℕ → Memory
init_gdt m gdt_entry =
    let m1 = store 8 m gdt_entry (create_gdt_entry 0 0 0) in
    let m2 = store 8 m1 (add64 gdt_entry 8) (create_gdt_entry 0xa09b 0 0xf_ffff) in
    store 8 m2 (add64 gdt_entry (2 * 8)) (create_gdt_entry 0xc093 0 0xf_ffff)

-- `none` is a panic: an address that is not aligned.
unfoldable pub init_guest_mem : Memory → ℕ → Option Memory
unfolding init_gdt set_entry map_pages
init_guest_mem m mem_addr = do
  let pml4 = add64 mem_addr boot_pml4
  let pdpte = add64 mem_addr boot_pdpte
  let pde = add64 mem_addr boot_pde
  let m0 = init_gdt m (add64 mem_addr boot_gdt)
  m1 ← set_entry m0 pml4 0 boot_pdpte (bit_or present writable)
  m2 ← set_entry m1 pml4 511 boot_pml4 (bit_or present writable)
  m3 ← set_entry m2 pdpte 0 boot_pde (bit_or present writable)
  map_pages 512 0 m3 pde
