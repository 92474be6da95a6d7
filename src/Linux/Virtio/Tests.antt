-- ===== src/Linux/Virtio/Tests.antt =====
-- The card of linux/virtio.rs on concrete hosts and memories.
use uhyve.Memory.{Memory, Slice}
use uhyve.Linux.Virtio.Valid.{IsValid}
use uhyve.Linux.Virtio.Invariant.{DriverWrite, run-IsValid, run_handshake, run, status}
use uhyve.Prelude.{
  List, [], refl, some, ℕ, ◌∷◌, ◌≡◌, if◌then◌else◌, replicate, set, ◌%◌, ◌==◌, length, ◌+◌,
}
use uhyve.Linux.Virtio.Device.{
  new, found, Host, read_status_reg, VirtioNetPciDevice, status_register,
}
use uhyve.Linux.Virtqueue.{Virtqueue}

abbrev mac : List ℕ
mac = 2 ∷ 0 ∷ 0 ∷ 0 ∷ 0 ∷ 1 ∷ []

-- A host with one tap device, number 3.
abbrev host : Host
host = record { open_tap = some 3; mac_address = λ _. found mac }

status_new : read_status_reg new ≡ 0x40
unfolding new
status_new = refl

new_size : length new.registers ≡ 64
unfolding new
new_size = refl

abbrev writes : List DriverWrite
writes = status 1 ∷ status 3 ∷ status 11 ∷ []

run-IsValid_example : IsValid (run host 0 writes new)
run-IsValid_example = run-IsValid host 0 writes

run_handshake_example :
    let d' =
      run host 0
        (status 0 ∷ status 1 ∷ status 3 ∷ status 11 ∷ status 15 ∷ [])
        (run host 0 writes new) in
    (read_status_reg d' ≡ 15)
    × (d'.iface ≡ some 3)
    × (d'.mac_addr ≡ mac)
    × (d'.virt_queues ≡ [])
    × (d'.requested_features ≡ 0)
run_handshake_example =
    run_handshake host 0 (run host 0 writes new) (run-IsValid host 0 writes).size refl refl

-- A ready card with its two queues at 0x40000 and 0x50000, and one packet of 64 bytes to send.
abbrev queue_at : ℕ → Virtqueue
queue_at mem = record {
  descriptor_table = mem;
  available_ring = mem + 0x1000;
  used_ring = mem + 0x2000;
  last_seen_available = 0;
  last_seen_used = 0;
  queue_size = 256;
}

abbrev ready : VirtioNetPciDevice
ready = record {
  registers = set (replicate 64 0) status_register 15;
  requested_features = 0;
  selected_queue_num = 1;
  virt_queues = queue_at 0x40000 ∷ queue_at 0x50000 ∷ [];
  iface = some 3;
  mac_addr = mac;
}

-- Every descriptor holds a length of 64; the driver has made one entry available.
abbrev guest : Memory
guest a = if a == 0x51002 then 1 else if a % 16 == 8 then 64 else 0

abbrev notification : Slice
notification = record { bytes = λ a. if a == 0 then 1 else 0; len = 2 }

abbrev bare : VirtioNetPciDevice
bare = record ready { virt_queues = [] }
