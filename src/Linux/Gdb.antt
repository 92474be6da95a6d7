-- ===== src/Linux/Gdb.antt =====
-- src/linux/gdb: the target of the debugger's stub.
pub mod Target
pub mod Breakpoints
pub mod Regs
pub mod Run
mod Tests
