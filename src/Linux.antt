-- ===== src/Linux.antt =====
-- src/linux: the hypervisor on KVM.
pub mod Vcpu
pub mod Virtqueue
pub mod Virtio
pub mod Gdb
pub mod Network
pub mod KvmVm
pub mod Threads
