-- ===== src/Macos/XhyveVm/Creation.antt =====
-- What the creation of a machine on macOS leaves behind.
use uhyve.Consts.{boot_pde}
use uhyve.Linux.Vcpu.Translate
use uhyve.Macos.Vcpu.Translate.{virt_to_phys}
use uhyve.Linux.Vcpu.Translate.Identity.{HoldsTables-Maps}
use uhyve.Linux.Vcpu.Translate.Maps.{virt_to_phys-Maps}
use uhyve.Macos.XhyveVm.{UhyveVm, Xhyve, cpu_online, create_cpu, new}
use uhyve.Memory.{Memory}
use uhyve.Prelude.Attempt.{crashes, makes}
use uhyve.Prelude.{arith, none, refl, some, true, ℕ, ◌+◌, ◌<◌, ◌^◌, ◌≡◌, ◌≤◌}
use uhyve.Vm.GuestMem.Tables.{init_guest_mem_tables}
use uhyve.Vm.Parameter.{Parameter}

-- The calls succeed, and 2 ^ 53 bytes of addresses follow the memory's start.
pub record IsGranted (xhyve : Xhyve) (specs : Parameter) (host : ℕ) : Type 0 where
  pub maps : xhyve.mmap specs.mem_size ≡ some host
  pub creates : xhyve.create_vm ≡ true
  pub maps_guest : xhyve.map_mem host specs.mem_size 0 ≡ true
  pub room : host + 2 ^ 53 ≤ 2 ^ 64

module _ (xhyve : Xhyve) (specs : Parameter) (host : ℕ) (m : Memory) where
  abbrev created : UhyveVm
  created = record {
    offset = 0;
    entry_point = 0;
    mem_size = specs.mem_size;
    guest_mem = host;
    num_cpus = specs.num_cpus;
    boot_info = none;
    ioapic = uhyve.Macos.IoApic.new;
    verbose = specs.verbose;
  }

  -- Where the calls succeed, 0x13000 bytes of memory or more and no debugger are asked for, and 2 ^ 53
  -- bytes of addresses follow the mapping, the machine is created with the memory and the CPUs asked
  -- for and none of them online; the boot tables lie within the mapping, and each CPU that it creates
  -- translates the addresses of the first GiB to themselves.
  pub new-create_cpu :
      {V : Type 0} (vcpu : V)
      → IsGranted xhyve specs host
      → specs.gdbport ≡ none
      → 0x1_3000 ≤ specs.mem_size
      → (vm : UhyveVm) × (m' : Memory) × (new xhyve specs m ≡ makes (vm, m'))
        × (vm.mem_size ≡ specs.mem_size)
        × (boot_pde + 0x1000 ≤ vm.mem_size)
        × (vm.num_cpus ≡ specs.num_cpus)
        × (cpu_online vm m' ≡ 0)
        × ((addr : ℕ) → addr < 2 ^ 30 → virt_to_phys m' (create_cpu vm vcpu) addr ≡ addr)
  unfolding new cpu_online virt_to_phys Translate.virt_to_phys
  new-create_cpu vcpu granted without size =
      let room = granted.room in
      let (m', boots, tables, _, _) = init_guest_mem_tables m host (omega arith) in
      (
        created,
        m',
        rw (granted.maps, granted.creates, granted.maps_guest, without, boots) refl,
        refl,
        omega arith,
        refl,
        refl,
        λ addr below. virt_to_phys-Maps m' host addr room (HoldsTables-Maps addr tables below),
      )

  -- A debugger is a panic.
  new-crashes :
      (port : ℕ)
      → IsGranted xhyve specs host
      → specs.gdbport ≡ some port
      → new xhyve specs m ≡ crashes
  unfolding new
  new-crashes port granted with = rw (granted.maps, granted.creates, granted.maps_guest, with) refl
