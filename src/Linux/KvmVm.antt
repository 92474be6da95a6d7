-- ===== src/Linux/KvmVm.antt =====
-- src/linux/uhyve.rs: the virtual machine on KVM, its memory and what its creation asks of KVM. The
-- packages kvm_ioctls and nix, the parser of addresses and the set-up of the network are `Kvm`.
use uhyve.Linux.Vcpu.Translate.{host_address}
use uhyve.Prelude.{
  Bool, List, Option, [], add64, false, if◌then◌else◌, ltb, none, not, some, true, ℕ, ◌*◌, ◌+◌, ◌-◌,
  ◌==◌, ◌^◌, ◌||◌, ◌∷◌,
}
use uhyve.Vm.GuestMem.{init_guest_mem}
use uhyve.Memory.{Memory, load}
use uhyve.Prelude.Attempt.{
  Attempt, makes, refuses, crashes, try_call, expect, unwrap, is_none, ◌>>=◌, ◌>>◌,
}
use uhyve.Vm.Parameter.{Parameter}
pub mod Regions
pub mod Creation
mod Tests

abbrev pub kvm_32bit_max_mem_size : ℕ
kvm_32bit_max_mem_size = 2 ^ 32

abbrev pub kvm_32bit_gap_size : ℕ
kvm_32bit_gap_size = 768 * 2 ^ 20

abbrev pub kvm_32bit_gap_start : ℕ
kvm_32bit_gap_start = kvm_32bit_max_mem_size - kvm_32bit_gap_size

abbrev pub sharedqueue_start : ℕ
sharedqueue_start = 0x8_0000

pub record MmapMemory : Type 0 where
  pub flags : ℕ
  pub memory_size : ℕ
  pub guest_address : ℕ
  pub host_address : ℕ

-- A `kvm_userspace_memory_region`
pub record Region : Type 0 where
  pub slot : ℕ
  pub flags : ℕ
  pub memory_size : ℕ
  pub guest_phys_addr : ℕ
  pub userspace_addr : ℕ

pub data Capability : Type 0 where
  x2apic_api tsc_deadline_timer irqfd x86_disable_exits : Capability

-- Each call, and whether it succeeds; `mmap` gives the address of a mapping of that size, and
-- `new_network` starts the network on a device at an address.
pub record Kvm : Type 0 where
  pub parse_ip : List ℕ → Option ℕ
  pub create_vm : Bool
  pub mmap : (size : ℕ) → Option ℕ
  pub madvise_mergeable : Bool
  pub madvise_hugepage : Bool
  pub set_user_memory_region : Region → Bool
  pub create_irq_chip : Bool
  pub enable_cap : Capability → Bool
  pub event_fd : Bool
  pub register_irqfd : Bool
  pub new_network : (nic : List ℕ) → (start : ℕ) → Bool

-- `boot_info` is the address of the structure, `none` the null pointer.
pub record UhyveVm : Type 0 where
  pub offset : ℕ
  pub entry_point : ℕ
  pub mem : MmapMemory
  pub num_cpus : ℕ
  pub boot_info : Option ℕ
  pub verbose : Bool
  pub ip : Option ℕ
  pub gateway : Option ℕ
  pub mask : Option ℕ
  pub uhyve_device : Bool
  pub gdb_port : Option ℕ

-- `specs.ip.as_ref().map(|addr_str| ...expect(...))`
abbrev pub parse_addr : Kvm → Option (List ℕ) → Attempt (Option ℕ)
parse_addr kvm none = makes none
parse_addr kvm (some text) = do addr ← unwrap (kvm.parse_ip text); makes (some addr)

unfoldable pub new_memory :
    Kvm → (flags memory_size guest_address : ℕ) → (huge_pages mergeable : Bool) → Attempt MmapMemory
new_memory kvm flags memory_size guest_address huge_pages mergeable = do
  host_address ← unwrap (kvm.mmap memory_size)
  expect (not mergeable || kvm.madvise_mergeable)
  expect (not huge_pages || kvm.madvise_hugepage)
  makes (record {
    flags = flags;
    memory_size = memory_size;
    guest_address = guest_address;
    host_address = host_address;
  })

-- The memory below the gap that a 32-bit device needs.
abbrev pub low_region : MmapMemory → (mem_size : ℕ) → Region
low_region mem mem_size = record {
  slot = 0;
  flags = mem.flags;
  memory_size = if ltb mem_size kvm_32bit_gap_start then mem_size else kvm_32bit_gap_start;
  guest_phys_addr = mem.guest_address;
  userspace_addr = mem.host_address;
}

-- The memory above it.
abbrev pub high_region : MmapMemory → (mem_size : ℕ) → Region
high_region mem mem_size =
    let above = kvm_32bit_gap_start + kvm_32bit_gap_size in
    record {
      slot = 1;
      flags = mem.flags;
      memory_size = mem_size - above;
      guest_phys_addr = add64 mem.guest_address above;
      userspace_addr = add64 mem.host_address above;
    }

abbrev pub has_high_region : (mem_size : ℕ) → Bool
has_high_region mem_size = ltb (kvm_32bit_gap_start + kvm_32bit_gap_size) mem_size

unfoldable pub memory_regions : MmapMemory → (mem_size : ℕ) → List Region
memory_regions mem mem_size =
    if has_high_region mem_size
    then low_region mem mem_size ∷ high_region mem mem_size ∷ []
    else low_region mem mem_size ∷ []

-- `set_user_memory_region(...)?` for each of them
unfoldable pub set_regions : Kvm → List Region → Attempt (Unit {0})
set_regions kvm [] = makes tt
set_regions kvm (r ∷ rs) = do try_call (kvm.set_user_memory_region r); set_regions kvm rs

-- The capabilities: two must be enabled, and for two the source expects a refusal.
abbrev pub enable_caps : Kvm → Attempt (Unit {0})
enable_caps kvm = do
  expect (kvm.enable_cap x2apic_api)
  expect (not (kvm.enable_cap tsc_deadline_timer))
  expect (not (kvm.enable_cap irqfd))
  expect (kvm.enable_cap x86_disable_exits)

abbrev pub new_device : Kvm → Option (List ℕ) → MmapMemory → Attempt Bool
new_device kvm none mem = makes false
new_device kvm (some nic) mem = do
  expect (kvm.new_network nic (add64 mem.host_address sharedqueue_start))
  makes true

-- The machine, the regions that KVM is given, and the memory of the host with the boot tables.
unfoldable pub new : Kvm → Parameter → Memory → Attempt (UhyveVm × List Region × Memory)
unfolding new_memory memory_regions set_regions
new kvm specs m = do
  ip_addr ← parse_addr kvm specs.ip
  gw_addr ← parse_addr kvm specs.gateway
  mask ← parse_addr kvm specs.mask
  try_call kvm.create_vm
  mem ← new_memory kvm 0 specs.mem_size 0 specs.hugepage specs.mergeable
  let regions = memory_regions mem specs.mem_size
  set_regions kvm regions
  try_call kvm.create_irq_chip
  enable_caps kvm
  expect kvm.event_fd
  try_call kvm.register_irqfd
  uhyve_device ← new_device kvm specs.nic mem
  expect (is_none specs.gdbport || (specs.num_cpus == 1))
  m' ← unwrap (init_guest_mem m mem.host_address)
  makes (
    record {
      offset = 0;
      entry_point = 0;
      mem = mem;
      num_cpus = specs.num_cpus;
      boot_info = none;
      verbose = specs.verbose;
      ip = ip_addr;
      gateway = gw_addr;
      mask = mask;
      uhyve_device = uhyve_device;
      gdb_port = specs.gdbport;
    },
    regions,
    m',
  )

abbrev pub set_boot_info : UhyveVm → (header : ℕ) → UhyveVm
set_boot_info vm header = record vm { boot_info = some header }

-- The field of `BootInfo` at 120, which the guest counts up.
unfoldable pub cpu_online : UhyveVm → Memory → ℕ
cpu_online vm m = elim vm.boot_info [ none ↦ 0 | some header ↦ load 4 m (header + 120) ]
