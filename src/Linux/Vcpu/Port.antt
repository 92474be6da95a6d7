-- ===== src/Linux/Vcpu/Port.antt =====
-- The input and output ports, of src/consts.rs, src/linux/virtio.rs and src/linux/vcpu.rs.
use uhyve.Prelude.{ℕ, ◌+◌}
use uhyve.Linux.Virtio.Device.{iobase}

abbrev pub pci_config_data : ℕ
pci_config_data = 0xcfc

abbrev pub pci_config_address : ℕ
pci_config_address = 0xcf8

abbrev pub host_features : ℕ
host_features = iobase

abbrev pub guest_features : ℕ
guest_features = iobase + 4

abbrev pub queue_pfn : ℕ
queue_pfn = iobase + 8

abbrev pub queue_sel : ℕ
queue_sel = iobase + 14

abbrev pub queue_notify : ℕ
queue_notify = iobase + 16

abbrev pub status : ℕ
status = iobase + 18

abbrev pub isr : ℕ
isr = iobase + 19

abbrev pub config_off_msix_off : ℕ
config_off_msix_off = 20

abbrev pub config_off_msix_off_max : ℕ
config_off_msix_off_max = config_off_msix_off + 5

abbrev pub link_status_msix_off : ℕ
link_status_msix_off = 6 + config_off_msix_off

abbrev pub uart : ℕ
uart = 0x800

abbrev pub cmdsize : ℕ
cmdsize = 0x740

abbrev pub cmdval : ℕ
cmdval = 0x780

abbrev pub netwrite : ℕ
netwrite = 0x640

abbrev pub exit : ℕ
exit = 0x540

abbrev pub open_file : ℕ
open_file = 0x440

abbrev pub write : ℕ
write = 0x400

abbrev pub read : ℕ
read = 0x500

abbrev pub unlink : ℕ
unlink = 0x840

abbrev pub lseek : ℕ
lseek = 0x580

abbrev pub close : ℕ
close = 0x480
