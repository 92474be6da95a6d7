-- ===== src/Linux/Vcpu/Translate.antt =====
-- src/linux/vcpu.rs, `host_address` and `virt_to_phys`: from the guest's addresses to the host's.
pub mod Maps
pub mod Identity
use uhyve.Prelude.{
  ℕ, zero, suc, ◌+◌, ◌-◌, ◌*◌, ◌^◌, ◌==◌, if◌then◌else◌, bit_and, bit_or, not64, add64, shl64, shr,
}
use uhyve.Consts.{boot_pml4}
use uhyve.Memory.{Memory, load}
use uhyve.Paging.{page_bits, page_map_bits, huge_page, execute_disable}

unfoldable pub host_address : ℕ → ℕ → ℕ
host_address vm_start addr = add64 addr vm_start

-- `(entry & (!0 << bits)) | (addr & !(!0 << bits))`
unfoldable pub join_offset : ℕ → ℕ → ℕ → ℕ
join_offset entry addr bits =
    let high = shl64 (not64 0) bits in bit_or (bit_and entry high) (bit_and addr (not64 high))

-- `for _i in 0..4`, with `left` rounds to go, at the table `table` with index bits from `bits` on.
-- There is no test of the present bit.
unfoldable pub walk : ℕ → Memory → ℕ → ℕ → ℕ → ℕ → ℕ → ℕ
unfolding host_address join_offset
walk zero m vm_start addr table bits entry = join_offset entry addr page_bits
walk (suc left) m vm_start addr table bits entry =
    let index = bit_and (shr addr bits) (2 ^ page_map_bits - 1) in
    let entry' = bit_and (load 8 m (add64 table (8 * index))) (not64 execute_disable) in
    let table' = host_address vm_start (bit_and entry' (not64 (2 ^ page_bits - 1))) in
    let next = walk left m vm_start addr table' (bits - page_map_bits) entry' in
    if bit_and entry' huge_page == 0 then next else join_offset entry' addr bits

unfoldable pub virt_to_phys : Memory → ℕ → ℕ → ℕ
unfolding walk host_address
virt_to_phys m vm_start addr = walk 4 m vm_start addr (host_address vm_start boot_pml4) 39 0
