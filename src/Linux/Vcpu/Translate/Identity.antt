-- ===== src/Linux/Vcpu/Translate/Identity.antt =====
-- The translation through the tables that the guest boots with.
use uhyve.Prelude.{ℕ, ◌+◌, ◌*◌, ◌/◌, ◌^◌, ◌≤◌, ◌<◌, ◌≡◌, refl, arith, some}
use uhyve.Consts.{boot_pml4, boot_pdpte, boot_pde}
use uhyve.Memory.{Memory}
use uhyve.Vm.GuestMem.{init_guest_mem}
use uhyve.Vm.GuestMem.Tables.{HoldsTables, init_guest_mem_tables}
use uhyve.Linux.Vcpu.Translate.{virt_to_phys}
use uhyve.Linux.Vcpu.Translate.Maps.{Maps, Entry, large, table, virt_to_phys-Maps}

-- By the rules of the processor the tables map each address below 1 GiB to itself.
pub HoldsTables-Maps :
    {m : Memory} {vm : ℕ} (addr : ℕ)
    → HoldsTables m vm
    → addr < 2 ^ 30
    → Maps m vm addr 4 boot_pml4 addr
HoldsTables-Maps {m} {vm} addr t h =
    table 0x11003 pml4 refl
      (table 0x12003 pdpte refl (large (i * 2 ^ 21 + 131) pde refl (omega arith) (omega arith)))
  where
    i : ℕ
    i = addr / 2 ^ 21

    pml4 : Entry m vm addr 4 boot_pml4 0x11003
    pml4 = record { stored = ground arith; present = refl; small = omega arith }

    pdpte : Entry m vm addr 3 boot_pdpte 0x12003
    pdpte = record { stored = ground arith; present = refl; small = omega arith }

    pde : Entry m vm addr 2 boot_pde (i * 2 ^ 21 + 131)
    pde = record { stored = ground (arith, t.pde i); present = omega arith; small = omega arith }

-- After booting, `virt_to_phys` is the identity on the first GiB, if 2 ^ 53 bytes of addresses
-- follow the start of guest memory.
pub virt_to_phys-init_guest_mem :
    (m : Memory) (vm addr : ℕ)
    → vm + 2 ^ 53 ≤ 2 ^ 64
    → addr < 2 ^ 30
    → (m' : Memory) × (init_guest_mem m vm ≡ some m') × (virt_to_phys m' vm addr ≡ addr)
virt_to_phys-init_guest_mem m vm addr room h =
    let booted = init_guest_mem_tables m vm (omega arith) in
    (booted.0, booted.1, virt_to_phys-Maps booted.0 vm addr room (HoldsTables-Maps addr booted.2 h))
