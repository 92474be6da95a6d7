-- ===== src/Arch.antt =====
-- src/arch: what is particular to x86-64.
pub mod Debug
