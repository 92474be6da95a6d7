-- ===== src/Macos/XhyveVm.antt =====
-- src/macos/uhyve.rs: the virtual machine on macOS. The calls of libc and of the package xhypervisor
-- that create it are the record Xhyve.
use uhyve.Linux.Vcpu.Translate.{host_address}
use uhyve.Macos.IoApic.{IoApic}
use uhyve.Macos.Vcpu.{UhyveCpu}
use uhyve.Memory.{Memory, load}
use uhyve.Prelude.Attempt.{Attempt, expect, is_none, makes, try_call, unwrap, ◌>>=◌, ◌>>◌}
use uhyve.Prelude.{Bool, Option, none, some, ℕ, ◌+◌}
use uhyve.Vm.GuestMem.{init_guest_mem}
use uhyve.Vm.Parameter.{Parameter}
pub mod Creation
mod Tests

-- `mmap` gives the address of a mapping of that size.
pub record Xhyve : Type 0 where
  pub mmap : (size : ℕ) → Option ℕ
  pub create_vm : Bool
  pub map_mem : (host_address size guest_address : ℕ) → Bool

-- `boot_info` is the address of the structure, `none` the null pointer.
pub record UhyveVm : Type 0 where
  pub offset : ℕ
  pub entry_point : ℕ
  pub mem_size : ℕ
  pub guest_mem : ℕ
  pub num_cpus : ℕ
  pub boot_info : Option ℕ
  pub ioapic : IoApic
  pub verbose : Bool

-- The machine, and the memory of the host with the boot tables.
unfoldable pub new : Xhyve → Parameter → Memory → Attempt (UhyveVm × Memory)
unfolding uhyve.Macos.IoApic.new
new xhyve specs m = do
  mem ← unwrap (xhyve.mmap specs.mem_size)
  try_call xhyve.create_vm
  try_call (xhyve.map_mem mem specs.mem_size 0)
  expect (is_none specs.gdbport)
  m' ← unwrap (init_guest_mem m mem)
  makes (
    record {
      offset = 0;
      entry_point = 0;
      mem_size = specs.mem_size;
      guest_mem = mem;
      num_cpus = specs.num_cpus;
      boot_info = none;
      ioapic = uhyve.Macos.IoApic.new;
      verbose = specs.verbose;
    },
    m',
  )

abbrev pub create_cpu : {V : Type 0} → UhyveVm → V → UhyveCpu V
create_cpu vm vcpu = uhyve.Macos.Vcpu.new vcpu vm.guest_mem vm.ioapic

abbrev pub set_boot_info : UhyveVm → (header : ℕ) → UhyveVm
set_boot_info vm header = record vm { boot_info = some header }

-- The field of `BootInfo` at 120, which the guest counts up.
unfoldable pub cpu_online : UhyveVm → Memory → ℕ
cpu_online vm m = elim vm.boot_info [ none ↦ 0 | some header ↦ load 4 m (header + 120) ]
