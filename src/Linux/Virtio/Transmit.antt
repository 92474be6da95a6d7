-- ===== src/Linux/Virtio/Transmit.antt =====
-- src/linux/virtio.rs: the driver's notification and the packets that it sends. `none` is a panic:
-- a queue that is not there, or a length below that of the header.
use uhyve.Prelude.{
  ℕ, ◌-◌, ◌==◌, ltb, if◌then◌else◌, bit_and, ◌&&◌, Option, none, some, ◌>>=◌, List, [], ◌∷◌, ◌++◌,
  get_elem?, set,
}
use uhyve.Memory.{Memory, load, load_bytes, Slice}
use uhyve.Linux.Virtqueue
use uhyve.Linux.Virtqueue.{Virtqueue, VringDescriptor, queue_limit}
use uhyve.Linux.Vcpu.Translate.{host_address}
use uhyve.Linux.Virtio.Device.{
  status_driver_ok, tx_queue, net_header_size, VirtioNetPciDevice, read_u16, read_status_reg,
  need_reset,
}

-- One packet: the device, the memory, and the packets handed to the tap device so far.
pub record Sending : Type 0 where
  pub device : VirtioNetPciDevice
  pub memory : Memory
  pub packets : List (List ℕ)

-- The descriptor's address is read through as a pointer, and the length loses the header.
unfoldable pub send_packet : ℕ → Virtqueue → ℕ → Sending → Option Sending
send_packet vm_start q i s =
    let desc = Virtqueue.get_descriptor s.memory q i in
    let hva = host_address vm_start (load 8 s.memory desc.addr) in
    elim s.device.iface [
      | some tap ↦
          if ltb desc.len net_header_size
          then none
          else some (record {
            device = s.device;
            memory = Virtqueue.add_used s.memory q i 1;
            packets = s.packets ++ load_bytes (desc.len - net_header_size) s.memory hva ∷ [];
          })
      | none ↦
          some
            (record s { device = need_reset s.device; memory = Virtqueue.add_used s.memory q i 1 })
    ]

-- `for index in send_indices`
unfoldable pub send_packets : ℕ → Virtqueue → List ℕ → Sending → Option Sending
unfolding send_packet
send_packets vm_start q [] s = some s
send_packets vm_start q (i ∷ is) s = do
  s' ← send_packet vm_start q i s
  send_packets vm_start q is s'

unfoldable pub send_available_packets : ℕ → VirtioNetPciDevice → Memory → Option Sending
unfolding send_packets
send_available_packets vm_start d m = do
  q ← get_elem? d.virt_queues tx_queue
  let (indices, q') = Virtqueue.available m q
  let d' = record d { virt_queues = set d.virt_queues tx_queue q' }
  send_packets vm_start q' indices (record { device = d'; memory = m; packets = [] })

unfoldable pub handle_notify_output : ℕ → VirtioNetPciDevice → Memory → Slice → Option Sending
unfolding send_available_packets
handle_notify_output vm_start d m dest = do
  tx_num ← read_u16 dest 0
  (if (tx_num == 1) && (bit_and (read_status_reg d) status_driver_ok == status_driver_ok)
      then send_available_packets vm_start d m
      else some (record { device = d; memory = m; packets = [] }))
