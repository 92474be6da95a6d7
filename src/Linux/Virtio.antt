-- ===== src/Linux/Virtio.antt =====
-- src/linux/virtio.rs: the virtio network card on the PCI bus.
pub mod Device
pub mod Negotiate
pub mod Transmit
pub mod Handshake
pub mod Valid
pub mod Serving
pub mod Invariant
pub mod Notify
mod Tests
