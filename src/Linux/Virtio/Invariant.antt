-- ===== src/Linux/Virtio/Invariant.antt =====
-- What holds of the card whatever the driver writes to its ports. The configuration space, which the
-- guest reaches through the PCI ports, is another way to the registers, and keeps none of this.
use uhyve.Prelude.{ℕ, ◌≡◌, refl, arith, ◌⊎◌, inl, inr, none, some, List, [], ◌∷◌}
use uhyve.Memory.{Slice}
use uhyve.Linux.Virtio.Device.{
  VirtioNetPciDevice, Host, Iface, found, read_status_reg, write_status_reg, new,
}
use uhyve.Linux.Virtio.Negotiate.{
  change_status, reset, write_status_ok, write_selected_queue, write_pfn, write_requested_features,
}
use uhyve.Linux.Virtio.Handshake.{Has64, Has64-write_status_reg, status-write_status_reg}
use uhyve.Linux.Virtio.Valid.{
  IsValid, new-IsValid, change_status-IsValid, write_requested_features-IsValid,
  write_selected_queue-IsValid, write_pfn-IsValid,
}
use uhyve.Linux.Virtio.Serving.{handle_notify_output-IsValid}
use uhyve.Linux.Virtio.Transmit.{Sending, handle_notify_output}
use uhyve.Prelude.{Option, Option-cases}
use uhyve.Memory.{Memory}

-- The step that follows a status sets the next one.
change_status-advance :
    (host : Host) (d : VirtioNetPciDevice) (b : ℕ)
    → ((read_status_reg d ≡ 0) × (b ≡ 1))
      ⊎ ((read_status_reg d ≡ 1) × (b ≡ 3))
      ⊎ ((read_status_reg d ≡ 3) × (b ≡ 11))
    → change_status host d b ≡ write_status_reg d b
unfolding change_status
change_status-advance host d b h = ground arith

change_status-ready :
    (host : Host) (d : VirtioNetPciDevice) {tap : Iface} {mac : List ℕ}
    → read_status_reg d ≡ 11
    → host.open_tap ≡ some tap
    → host.mac_address tap ≡ found mac
    → change_status host d 15 ≡ record (write_status_reg d 15) { iface = some tap; mac_addr = mac }
unfolding change_status write_status_ok
change_status-ready host d h opens knows = ground arith

change_status-reset : (host : Host) (d : VirtioNetPciDevice) → change_status host d 0 ≡ reset d
unfolding change_status
change_status-reset host d = refl

-- What the driver can write to the card's ports; a notification is served on the memory of that time.
pub data DriverWrite : Type 0 where
  status : ℕ → DriverWrite
  features queue_select queue_pfn : Slice → DriverWrite
  notification : Memory → Slice → DriverWrite

-- The card after a notification; after a panic no write follows.
abbrev pub served : VirtioNetPciDevice → Option Sending → VirtioNetPciDevice
served d none = d
served d (some s) = s.device

module _ (host : Host) (vm_start : ℕ) where
  unfoldable pub apply : DriverWrite → VirtioNetPciDevice → VirtioNetPciDevice
  apply (status b) d = change_status host d b
  apply (features dest) d = write_requested_features d dest
  apply (queue_select dest) d = write_selected_queue d dest
  apply (queue_pfn dest) d = write_pfn vm_start d dest
  apply (notification m dest) d = served d (handle_notify_output vm_start d m dest)

  unfoldable pub run : List DriverWrite → VirtioNetPciDevice → VirtioNetPciDevice
  unfolding apply
  run [] d = d
  run (w ∷ ws) d = run ws (apply w d)

  apply-IsValid : (w : DriverWrite) {d : VirtioNetPciDevice} → IsValid d → IsValid (apply w d)
  unfolding apply
  apply-IsValid (status b) v = change_status-IsValid host b v
  apply-IsValid (features dest) v = write_requested_features-IsValid dest v
  apply-IsValid (queue_select dest) v = write_selected_queue-IsValid dest v
  apply-IsValid (queue_pfn dest) v = write_pfn-IsValid vm_start dest v
  apply-IsValid (notification m dest) {d} v =
      elim (Option-cases (handle_notify_output vm_start d m dest)) [
        | inl panics ↦ rw panics v
        | inr (s, serves) ↦ rw serves (handle_notify_output-IsValid vm_start m dest v serves)
      ]

  run_keeps : (ws : List DriverWrite) {d : VirtioNetPciDevice} → IsValid d → IsValid (run ws d)
  unfolding run
  run_keeps [] v = v
  run_keeps (w ∷ ws) v = run_keeps ws (apply-IsValid w v)

  -- Whatever the driver writes to the status, feature, queue-select, queue-address and notification
  -- ports of a new card, in whatever order and up to the first panic: the status is one of the
  -- handshake's, a ready card has an interface and a card before that has none, queues exist only from
  -- FEATURES_OK on and have the size of the limit, and no feature is accepted that the card does not
  -- offer. Writes to the card's PCI configuration space, which reach the status too, are not among
  -- these.
  pub run-IsValid : (ws : List DriverWrite) → IsValid (run ws new)
  run-IsValid ws = run_keeps ws new-IsValid

  -- From every state of a card with its 64 registers, a reset and the four steps make the card ready,
  -- if the host opens a tap device and knows its address: the card has that device, that address, and
  -- no queue or feature from before.
  pub run_handshake :
      (d : VirtioNetPciDevice) {tap : Iface} {mac : List ℕ}
      → Has64 d
      → host.open_tap ≡ some tap
      → host.mac_address tap ≡ found mac
      → let d' = run (status 0 ∷ status 1 ∷ status 3 ∷ status 11 ∷ status 15 ∷ []) d in
        (read_status_reg d' ≡ 15)
        × (d'.iface ≡ some tap)
        × (d'.mac_addr ≡ mac)
        × (d'.virt_queues ≡ [])
        × (d'.requested_features ≡ 0)
  unfolding run apply reset
  run_handshake d {tap} {mac} v opens knows =
      let d0 = reset d in
      let h0 = Has64-write_status_reg d 0 v in
      let s0 = status-write_status_reg d 0 v in
      let d1 = write_status_reg d0 1 in
      let h1 = Has64-write_status_reg d0 1 h0 in
      let s1 = status-write_status_reg d0 1 h0 in
      let d3 = write_status_reg d1 3 in
      let h3 = Has64-write_status_reg d1 3 h1 in
      let s3 = status-write_status_reg d1 3 h1 in
      let d11 = write_status_reg d3 11 in
      let s11 = status-write_status_reg d3 11 h3 in
      rw
        (
          change_status-reset host d,
          change_status-advance host d0 1 (inl (s0, refl)),
          change_status-advance host d1 3 (inr (inl (s1, refl))),
          change_status-advance host d3 11 (inr (inr (s3, refl))),
          change_status-ready host d11 s11 opens knows,
        )
        (status-write_status_reg d11 15 (Has64-write_status_reg d3 11 h3), refl, refl, refl, refl)
