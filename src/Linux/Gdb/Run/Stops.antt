-- ===== src/Linux/Gdb/Run/Stops.antt =====
-- What the debugger sees of a run of the guest.
use uhyve.Prelude.{◌≡◌}
use uhyve.Arch.Debug.{
  HwBreakpoint, StopReason, instruction_execution, data_writes, data_reads_writes, hw_break, watch,
  write, read_write,
}
use uhyve.Linux.Vcpu.Machine.{Machine}

-- What the debugger is to be told of a breakpoint, by its condition.
pub data IsReason (b : HwBreakpoint) : StopReason → Type 0 where
  executed : b.condition ≡ instruction_execution → IsReason b hw_break
  written : b.condition ≡ data_writes → IsReason b (watch write b.addr)
  accessed : b.condition ≡ data_reads_writes → IsReason b (watch read_write b.addr)
