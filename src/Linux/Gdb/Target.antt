-- ===== src/Linux/Gdb/Target.antt =====
-- src/linux/gdb/mod.rs and `UhyveCPU::memory` of src/linux/vcpu.rs: the state of the target, and its
-- memory through the guest's page tables.
use uhyve.Prelude.{ℕ, List, []}
use uhyve.Memory.{Memory, load_bytes, store_bytes}
use uhyve.Arch.Debug.{HwBreakpoints}
use uhyve.Arch.Debug
use uhyve.Linux.Vcpu.Translate.{host_address, virt_to_phys}

-- A key of the map of software breakpoints.
pub record SwBreakpoint : Type 0 where
  pub addr : ℕ
  pub kind : ℕ

-- The guest's memory is that of the host from `vm_start` on. The map is a list of its entries.
pub record GdbUhyve : Type 0 where
  pub memory : Memory
  pub vm_start : ℕ
  pub hw_breakpoints : HwBreakpoints
  pub sw_breakpoints : List (SwBreakpoint × List ℕ)

abbrev pub new : Memory → ℕ → GdbUhyve
new m vm_start = record {
  memory = m;
  vm_start = vm_start;
  hw_breakpoints = Debug.new;
  sw_breakpoints = [];
}

-- `UhyveCPU::memory`: the pointer of the slice that begins at a virtual address. The slice is
-- contiguous in the host, whatever the tables say of the pages behind the first.
unfoldable pub memory : Memory → ℕ → ℕ → ℕ
memory m vm_start start_addr = host_address vm_start (virt_to_phys m vm_start start_addr)

unfoldable pub read_addrs : GdbUhyve → ℕ → ℕ → List ℕ
unfolding memory
read_addrs g start_addr len = load_bytes len g.memory (memory g.memory g.vm_start start_addr)

unfoldable pub write_addrs : GdbUhyve → ℕ → List ℕ → GdbUhyve
unfolding memory
write_addrs g start_addr bytes = record g {
  memory = store_bytes g.memory (memory g.memory g.vm_start start_addr) bytes;
}
