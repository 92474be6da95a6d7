-- ===== src/Linux/KvmVm/Tests.antt =====
-- The machine of linux/uhyve.rs on a host that grants everything.
use uhyve.Prelude.{
  Bool, List, Option, arith, false, if◌then◌else◌, inl, ltb, none, not, refl, some, true, ℕ, ◌&&◌,
  ◌*◌, ◌^◌, ◌≡◌,
}
use uhyve.Linux.Vcpu.Translate.{host_address}
use uhyve.Consts.{boot_pml4}
use uhyve.Memory.{Memory, load}
use uhyve.Linux.KvmVm.Regions.{host_of, in_gap, host_of-memory_regions}
use uhyve.Linux.KvmVm.Creation.{IsReady, new_boots}
use uhyve.Linux.KvmVm.{
  Kvm, UhyveVm, Region, MmapMemory, memory_regions, new, cpu_online, Capability, x2apic_api,
  tsc_deadline_timer, irqfd, x86_disable_exits,
}
use uhyve.Prelude.Attempt.{makes}
use uhyve.Vm.Parameter.{Parameter}

abbrev grants : Capability → Bool
grants x2apic_api = true
grants tsc_deadline_timer = false
grants irqfd = false
grants x86_disable_exits = true

abbrev kvm : Kvm
kvm = record {
  parse_ip = λ text. some 0;
  create_vm = true;
  mmap = λ size. some 0x7f00_0000_0000;
  madvise_mergeable = true;
  madvise_hugepage = true;
  set_user_memory_region = λ r. true;
  create_irq_chip = true;
  enable_cap = grants;
  event_fd = true;
  register_irqfd = true;
  new_network = λ nic start. true;
}

-- Six GiB of memory.
abbrev specs : Option ℕ → (num_cpus : ℕ) → Parameter
specs gdbport num_cpus = record {
  mem_size = 6 * 2 ^ 30;
  num_cpus = num_cpus;
  verbose = false;
  hugepage = true;
  mergeable = false;
  ip = none;
  gateway = none;
  mask = none;
  nic = none;
  gdbport = gdbport;
}

abbrev ready : (gdbport : Option ℕ) (num_cpus : ℕ) → IsReady kvm (specs gdbport num_cpus)
ready gdbport num_cpus = record {
  ip = none;
  parses_ip = refl;
  gateway = none;
  parses_gateway = refl;
  mask = none;
  parses_mask = refl;
  creates = refl;
  host = 0x7f00_0000_0000;
  maps = refl;
  room = omega arith;
  advises_mergeable = refl;
  advises_hugepage = refl;
  takes_region = λ r. refl;
  creates_chip = refl;
  enables_x2apic = refl;
  refuses_tsc = refl;
  refuses_irqfd = refl;
  disables_exits = refl;
  makes_event = refl;
  registers = refl;
  starts_network = λ nic start. refl;
}

abbrev mapped : MmapMemory
mapped = record {
  flags = 0;
  memory_size = 6 * 2 ^ 30;
  guest_address = 0;
  host_address = 0x7f00_0000_0000;
}

host_of-memory_regions_example : host_of (memory_regions mapped (6 * 2 ^ 30)) 0x1_2345_6789 ≡ (
    if ltb 0x1_2345_6789 (6 * 2 ^ 30) && not (in_gap 0x1_2345_6789)
    then some (host_address mapped.host_address 0x1_2345_6789)
    else none)
host_of-memory_regions_example = host_of-memory_regions mapped (6 * 2 ^ 30) 0x1_2345_6789 refl

new_boots_example :
    (vm : UhyveVm) × (rs : List Region) × (m' : Memory) × (root : ℕ) × (new kvm
        (specs none 2)
        (λ _. 0)
      ≡ makes (vm, rs, m'))
    × (vm.mem.memory_size ≡ 6 * 2 ^ 30)
    × (cpu_online vm m' ≡ 0)
    × ((gpa : ℕ)
        → host_of rs gpa ≡ (
            if ltb gpa (6 * 2 ^ 30) && not (in_gap gpa)
            then some (host_address vm.mem.host_address gpa)
            else none))
    × (host_of rs boot_pml4 ≡ some root)
    × (load 8 m' root ≡ 0x1_1003)
new_boots_example = new_boots kvm (specs none 2) (ready none 2) (λ _. 0) (omega arith) (inl refl)
