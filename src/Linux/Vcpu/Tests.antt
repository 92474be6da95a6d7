-- ===== src/Linux/Vcpu/Tests.antt =====
-- Address translation of linux/vcpu.rs on concrete tables.
use uhyve.Prelude.{arith, some, ◌≡◌, refl}
use uhyve.Memory.{Memory, load, store, write_byte}
use uhyve.Consts.{boot_pml4}
use uhyve.Vm.GuestMem.{init_guest_mem}
use uhyve.Linux.Vcpu.Translate.{virt_to_phys}
use uhyve.Linux.Vcpu.Translate.Maps.{Maps, page, table, virt_to_phys-Maps}
use uhyve.Linux.Vcpu.Translate.Identity.{virt_to_phys-init_guest_mem}

virt_to_phys-init_guest_mem_example :
    (m' : Memory) × (init_guest_mem (λ _. 0) 0x10000000 ≡ some m')
    × (virt_to_phys m' 0x10000000 0x234567 ≡ 0x234567)
virt_to_phys-init_guest_mem_example =
    virt_to_phys-init_guest_mem (λ _. 0) 0x10000000 0x234567 (omega arith) (omega arith)

-- Tables that map the page at 0x1000 to the frame at 0x55000.
abbrev tables : Memory
tables =
    store 8 (store 8 (store 8 (store 8 (λ _. 0) 0x10000 0x11003) 0x11000 0x12003) 0x12000 0x13003)
      0x13008 0x55003

e4 : load 8 tables 0x10000 ≡ 0x11003
unfolding load store write_byte
e4 = refl

e3 : load 8 tables 0x11000 ≡ 0x12003
unfolding load store write_byte
e3 = refl

e2 : load 8 tables 0x12000 ≡ 0x13003
unfolding load store write_byte
e2 = refl

e1 : load 8 tables 0x13008 ≡ 0x55003
unfolding load store write_byte
e1 = refl

abbrev maps : Maps tables 0 0x1234 4 boot_pml4 0x55234
maps =
    table 0x11003 (record { stored = e4; present = omega arith; small = omega arith }) (omega arith)
      (table 0x12003 (record { stored = e3; present = omega arith; small = omega arith })
        (omega arith)
        (table 0x13003 (record { stored = e2; present = omega arith; small = omega arith })
          (omega arith)
          (page 0x55003 (record { stored = e1; present = omega arith; small = omega arith }) refl
            refl)))

virt_to_phys-Maps_example : virt_to_phys tables 0 0x1234 ≡ 0x55234
virt_to_phys-Maps_example = virt_to_phys-Maps tables 0 0x1234 (omega arith) maps
