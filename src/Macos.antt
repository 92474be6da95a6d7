-- ===== src/Macos.antt =====
-- The parts of the hypervisor that only macOS has.
pub mod IoApic
pub mod Vcpu
pub mod XhyveVm
pub mod Threads
