-- ===== src/Linux/Virtio/Handshake.antt =====
-- How the handshake moves the status.
use uhyve.Prelude.{ℕ, ◌≡◌, ◌≢◌, arith, ◌⊎◌, none, length, get_or, set, get_or-set_self, length-set}
use uhyve.Linux.Virtio.Device.{VirtioNetPciDevice, Host, read_status_reg, write_status_reg}
use uhyve.Linux.Virtio.Negotiate.{change_status, write_status_ok}

-- The phases of the handshake, by their status: the bits ACKNOWLEDGE, DRIVER, FEATURES_OK and
-- DRIVER_OK are set in this order, and NEEDS_RESET where the host could not follow.
abbrev pub Step : (byte before after : ℕ) → Type 0
Step b s t =
    ((b ≡ 0) × (t ≡ 0))
    ⊎ ((b ≡ 1) × ((s ≡ 0) ⊎ (s ≡ 0x40)) × (t ≡ 1))
    ⊎ ((b ≡ 3) × (s ≡ 1) × (t ≡ 3))
    ⊎ ((b ≡ 11) × (s ≡ 3) × (t ≡ 11))
    ⊎ ((b ≡ 15) × (s ≡ 11) × ((t ≡ 15) ⊎ (t ≡ 0x4f)))
    ⊎ ((b ≢ 0) × (t ≡ s))

abbrev pub Has64 : VirtioNetPciDevice → Type 0
Has64 d = length d.registers ≡ 64

pub status-write_status_reg :
    (d : VirtioNetPciDevice) (v : ℕ) → Has64 d → read_status_reg (write_status_reg d v) ≡ v
status-write_status_reg d v h = get_or-set_self d.registers 6 v 0 (omega arith)

pub Has64-write_status_reg :
    (d : VirtioNetPciDevice) (v : ℕ) → Has64 d → Has64 (write_status_reg d v)
Has64-write_status_reg d v h = omega (arith, length-set d.registers 6 v)

-- The last step opens the tap device and reads its address. If both succeed the device is ready
-- and has the interface; else it needs a reset.
pub record IsOpened (d : VirtioNetPciDevice) : Type 0 where
  pub size : Has64 d
  pub status : (read_status_reg d ≡ 15) ⊎ (read_status_reg d ≡ 0x4f)
  pub has_iface : read_status_reg d ≡ 15 → d.iface ≢ none

pub write_status_ok-IsOpened :
    (host : Host) (d : VirtioNetPciDevice) → Has64 d → IsOpened (write_status_ok host d 15)
unfolding write_status_ok
write_status_ok-IsOpened host d h =
    let set15 = status-write_status_reg d 15 h in
    let size = length-set d.registers 6 15 in
    let size' = length-set (set d.registers 6 15) 6 0x4f in
    let again : get_or (set (set d.registers 6 15) 6 0x4f) 6 0 ≡ 0x4f =
      get_or-set_self (set d.registers 6 15) 6 0x4f 0 (omega arith) in
    record { size = ground arith; status = ground arith; has_iface = ground arith }

pub write_status_ok_ignored :
    (host : Host) (d : VirtioNetPciDevice) (b : ℕ) → b ≢ 15 → write_status_ok host d b ≡ d
unfolding write_status_ok
write_status_ok_ignored host d b h = ground arith

-- The last step touches neither the queues nor the features.
pub write_status_ok_frame :
    (host : Host) (d : VirtioNetPciDevice)
    → let d' = write_status_ok host d 15 in
      (d'.virt_queues ≡ d.virt_queues) × (d'.requested_features ≡ d.requested_features)
unfolding write_status_ok
write_status_ok_frame host d = ground arith

-- Each write to the status register takes the handshake one step, or leaves the status alone.
change_status-Step :
    (host : Host) (d : VirtioNetPciDevice) (b : ℕ)
    → Has64 d
    → Step b (read_status_reg d) (read_status_reg (change_status host d b))
unfolding change_status write_status_ok
change_status-Step host d b h = ground (
  arith,
  status-write_status_reg d b h,
  status-write_status_reg d 0 h,
  write_status_ok-IsOpened host d h,
)
