-- ===== src/Linux/Virtio/Negotiate.antt =====
-- src/linux/virtio.rs: the handshake, the features and the queues. `none` is a panic.
use uhyve.Prelude.{
  ℕ, ◌==◌, leb, if◌then◌else◌, bit_and, bit_or, not, ◌&&◌, ◌||◌, Option, none, some, ◌>>=◌, [], ◌∷◌,
  ◌++◌, length,
}
use uhyve.Memory.{load, store, Slice, index_slice}
use uhyve.Linux.Virtqueue
use uhyve.Linux.Virtqueue.{Virtqueue, VringDescriptor, queue_limit}
use uhyve.Linux.Vcpu.Translate.{host_address}
use uhyve.Linux.Virtio.Device.{
  status_acknowledge, status_driver, status_driver_ok, status_features_ok,
  status_driver_needs_reset, host_features, Host, VirtioNetPciDevice, read_status_reg,
  write_status_reg, need_reset, get_mac_addr,
}

-- The four steps of the handshake, by the first byte that the driver writes.
unfoldable pub write_status_reset : VirtioNetPciDevice → ℕ → VirtioNetPciDevice
write_status_reset d b = if b == status_acknowledge then write_status_reg d b else d

unfoldable pub write_status_acknowledge : VirtioNetPciDevice → ℕ → VirtioNetPciDevice
write_status_acknowledge d b =
    if b == bit_or status_acknowledge status_driver then write_status_reg d b else d

unfoldable pub write_status_features : VirtioNetPciDevice → ℕ → VirtioNetPciDevice
write_status_features d b =
    if b == bit_or (bit_or status_acknowledge status_driver) status_features_ok
    then write_status_reg d b
    else d

unfoldable pub open_iface : Host → VirtioNetPciDevice → VirtioNetPciDevice
open_iface host d = elim host.open_tap [
  | some tap ↦ record d { iface = some tap }
  | none ↦ record (need_reset d) { iface = none }
]

unfoldable pub write_status_ok : Host → VirtioNetPciDevice → ℕ → VirtioNetPciDevice
unfolding get_mac_addr open_iface
write_status_ok host d b =
    let all =
      bit_or (bit_or (bit_or status_acknowledge status_driver) status_features_ok)
        status_driver_ok in
    if b == all then get_mac_addr host (open_iface host (write_status_reg d b)) else d

unfoldable pub reset : VirtioNetPciDevice → VirtioNetPciDevice
reset d = record (write_status_reg d 0) {
  requested_features = 0;
  selected_queue_num = 0;
  virt_queues = [];
  iface = none;
}

-- What the first byte does, by the status that the device has.
unfoldable pub change_status : Host → VirtioNetPciDevice → ℕ → VirtioNetPciDevice
unfolding reset write_status_reset write_status_acknowledge write_status_features
change_status host d b =
    let status = read_status_reg d in
    if b == 0
    then reset d
    else if (status == status_driver_needs_reset) || (status == 0)
    then write_status_reset d b
    else if status == status_acknowledge
    then write_status_acknowledge d b
    else if status == bit_or status_acknowledge status_driver
    then write_status_features d b
    else if status == bit_or (bit_or status_acknowledge status_driver) status_features_ok
    then write_status_ok host d b
    else d

unfoldable pub write_status : Host → VirtioNetPciDevice → Slice → Option VirtioNetPciDevice
unfolding change_status
write_status host d dest = do b ← index_slice dest 0; some (change_status host d b)

-- `as_ptr` is read with no regard to the length.
unfoldable pub write_selected_queue : VirtioNetPciDevice → Slice → VirtioNetPciDevice
write_selected_queue d dest = record d { selected_queue_num = load 2 dest.bytes 0 }

unfoldable pub write_pfn : ℕ → VirtioNetPciDevice → Slice → VirtioNetPciDevice
write_pfn vm_start d dest =
    let status = read_status_reg d in
    let gpa = load 8 dest.bytes 0 in
    let queue = Virtqueue.new (host_address vm_start gpa) queue_limit in
    if not (bit_and status status_features_ok == 0)
      && (bit_and status status_driver_ok == 0)
      && (d.selected_queue_num == length d.virt_queues)
    then record d { virt_queues = d.virt_queues ++ queue ∷ [] }
    else d

unfoldable pub write_requested_features : VirtioNetPciDevice → Slice → VirtioNetPciDevice
write_requested_features d dest =
    if read_status_reg d == bit_or status_acknowledge status_driver
    then record d {
      requested_features =
          bit_and (bit_or d.requested_features (load 4 dest.bytes 0)) host_features;
    }
    else d

-- `dest[0..4].clone_from_slice(&bytes)` of a `u32`
unfoldable pub put_u32 : Slice → ℕ → Option Slice
put_u32 dest v =
    if leb 4 dest.len then some (record dest { bytes = store 4 dest.bytes 0 v }) else none

unfoldable pub read_requested_features : VirtioNetPciDevice → Slice → Option Slice
unfolding put_u32
read_requested_features d dest =
    if read_status_reg d == bit_or status_acknowledge status_driver
    then put_u32 dest d.requested_features
    else some dest

unfoldable pub read_host_features : VirtioNetPciDevice → Slice → Option Slice
unfolding put_u32
read_host_features d dest = put_u32 dest host_features
