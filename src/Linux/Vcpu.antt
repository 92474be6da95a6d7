-- ===== src/Linux/Vcpu.antt =====
-- src/linux/vcpu.rs: the virtual processor on KVM.
pub mod Translate
pub mod Port
pub mod Machine
pub mod Exits
pub mod Setup
pub mod Cpuid
mod Tests
