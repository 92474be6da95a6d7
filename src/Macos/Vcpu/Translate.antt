-- ===== src/Macos/Vcpu/Translate.antt =====
-- `host_address` and `virt_to_phys` of src/macos/vcpu.rs. The body of the loop, which is the same in
-- src/linux/vcpu.rs, is `walk`.
use uhyve.Consts.{boot_pml4}
use uhyve.Linux.Vcpu.Translate.{host_address, walk}
use uhyve.Macos.Vcpu.{UhyveCpu}
use uhyve.Memory.{Memory}
use uhyve.Prelude.{ℕ}

unfoldable pub virt_to_phys : {V : Type 0} → Memory → UhyveCpu V → (addr : ℕ) → ℕ
unfolding host_address walk
virt_to_phys m c addr = walk 4 m c.vm_start addr (host_address c.vm_start boot_pml4) 39 0
