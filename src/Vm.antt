-- ===== src/Vm.antt =====
-- src/vm.rs: what is the same on every host.
pub mod Parameter
pub mod Gdt
pub mod GuestMem
pub mod Hypercalls
pub mod Arguments
pub mod BootInfo
pub mod Loader
pub mod Frequency
mod Tests
