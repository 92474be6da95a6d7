-- ===== src/Linux/Virtio/Valid.antt =====
-- The invariant of the card, and that the four handlers of its ports keep it.
use uhyve.Prelude.{
  ℕ, ◌<◌, ◌≡◌, ◌≢◌, ◌^◌, refl, arith, ◌⊎◌, none, List, [], ◌∷◌, ◌++◌, length-set, bit_or, bit_and,
}
use uhyve.Prelude.Bits.{bit_and_idem, bit_and_bit}
use uhyve.Memory.{Slice, load}
use uhyve.Linux.Virtqueue
use uhyve.Linux.Vcpu.Translate.{host_address}
use uhyve.Linux.Virtqueue.{Virtqueue, queue_limit}
use uhyve.Linux.Virtio.Device.{VirtioNetPciDevice, Host, read_status_reg, host_features, new}
use uhyve.Linux.Virtio.Negotiate.{
  change_status, write_selected_queue, write_pfn, write_requested_features,
}
use uhyve.Linux.Virtio.Handshake.{
  Has64, write_status_ok_ignored, write_status_ok_frame, write_status_ok-IsOpened,
  status-write_status_reg,
}

-- The statuses of the handshake.
abbrev pub IsPhase : ℕ → Type 0
IsPhase s = (s ≡ 0) ⊎ (s ≡ 1) ⊎ (s ≡ 3) ⊎ (s ≡ 11) ⊎ (s ≡ 15) ⊎ (s ≡ 0x40) ⊎ (s ≡ 0x4f)

-- Every queue has the size of the limit, and a position of 16 bits.
abbrev pub AllSized : List Virtqueue → Type 0
AllSized [] = Unit {0}
AllSized (q ∷ qs) = ((q.queue_size ≡ queue_limit) × (q.last_seen_available < 2 ^ 16)) × AllSized qs

pub record IsValid (d : VirtioNetPciDevice) : Type 0 where
  pub size : Has64 d
  pub phase : IsPhase (read_status_reg d)
  pub has_iface : read_status_reg d ≡ 15 → d.iface ≢ none
  pub no_iface : read_status_reg d ≢ 15 → read_status_reg d ≢ 0x4f → d.iface ≡ none
  pub no_queues :
      read_status_reg d ≢ 11
      → read_status_reg d ≢ 15
      → read_status_reg d ≢ 0x4f
      → d.virt_queues ≡ []
  pub features : bit_and d.requested_features host_features ≡ d.requested_features
  pub sized : AllSized d.virt_queues

pub new-IsValid : IsValid new
unfolding new
new-IsValid = ground arith

pub change_status-IsValid :
    (host : Host) {d : VirtioNetPciDevice} (b : ℕ) → IsValid d → IsValid (change_status host d b)
unfolding change_status
change_status-IsValid host {d} b v = ground (
  arith,
  status-write_status_reg d b v.size,
  status-write_status_reg d 0 v.size,
  length-set d.registers 6 b,
  length-set d.registers 6 0,
  write_status_ok-IsOpened host d v.size,
  write_status_ok_frame host d,
  write_status_ok_ignored host d b,
)

pub write_requested_features-IsValid :
    {d : VirtioNetPciDevice} (dest : Slice) → IsValid d → IsValid (write_requested_features d dest)
unfolding write_requested_features
write_requested_features-IsValid {d} dest v =
    ground (arith, bit_and_idem (bit_or d.requested_features (load 4 dest.bytes 0)) host_features)

pub write_selected_queue-IsValid :
    {d : VirtioNetPciDevice} (dest : Slice) → IsValid d → IsValid (write_selected_queue d dest)
unfolding write_selected_queue
write_selected_queue-IsValid dest v = ground arith

AllSized-append :
    (qs : List Virtqueue) (q : Virtqueue)
    → AllSized qs
    → q.queue_size ≡ queue_limit
    → q.last_seen_available < 2 ^ 16
    → AllSized (qs ++ q ∷ [])
AllSized-append [] q h s l = ((s, l), tt)
AllSized-append (p ∷ qs) q h s l = (h.0, AllSized-append qs q h.1 s l)

new_sized :
    (mem : ℕ)
    → let q = Virtqueue.new mem queue_limit in
      (q.queue_size ≡ queue_limit) × (q.last_seen_available ≡ 0)
unfolding Virtqueue.new
new_sized mem = (refl, refl)

pub write_pfn-IsValid :
    (vm_start : ℕ) {d : VirtioNetPciDevice} (dest : Slice)
    → IsValid d
    → IsValid (write_pfn vm_start d dest)
unfolding write_pfn
write_pfn-IsValid vm_start {d} dest v =
    let q = Virtqueue.new (host_address vm_start (load 8 dest.bytes 0)) queue_limit in
    ground (
      arith,
      bit_and_bit 3 (read_status_reg d),
      AllSized-append d.virt_queues q v.sized,
      new_sized (host_address vm_start (load 8 dest.bytes 0)),
    )
