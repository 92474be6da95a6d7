-- ===== src/Consts.antt =====
-- src/consts.rs: the addresses, ports and sizes that the parts share.
use uhyve.Prelude.{ℕ}

abbrev pub page_size : ℕ
page_size = 0x1000

abbrev pub boot_gdt : ℕ
boot_gdt = 0x1000

abbrev pub boot_pml4 : ℕ
boot_pml4 = 0x10000

abbrev pub boot_pdpte : ℕ
boot_pdpte = 0x11000

abbrev pub boot_pde : ℕ
boot_pde = 0x12000

abbrev pub uhyve_net_mtu : ℕ
uhyve_net_mtu = 1500

abbrev pub uhyve_queue_size : ℕ
uhyve_queue_size = 8

abbrev pub boot_info_addr : ℕ
boot_info_addr = 0x9000

abbrev pub kernel_stack_size : ℕ
kernel_stack_size = 32768

abbrev pub uhyve_uart_port : ℕ
uhyve_uart_port = 0x800
