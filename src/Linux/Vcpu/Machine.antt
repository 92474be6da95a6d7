-- ===== src/Linux/Vcpu/Machine.antt =====
-- src/linux/vcpu.rs: the state that exits change, and the input ports of `continue`.
use uhyve.Linux.Vcpu.Port.{
  config_off_msix_off, config_off_msix_off_max, guest_features, link_status_msix_off,
  pci_config_address, pci_config_data, queue_notify, queue_sel, isr, status,
}
use uhyve.Prelude.{List, Option, bit_and, if◌then◌else◌, leb, none, some, ℕ, ◌&&◌, ◌-◌, ◌==◌}
use uhyve.Memory.{Memory, store, Slice}
use uhyve.Linux.Vcpu.Port
use uhyve.Vm.Hypercalls.{Libc}
use uhyve.Linux.Virtio.Device.{
  Host, VirtioNetPciDevice, handle_read, handle_write, read_status, read_mac_byte, read_link_status,
}
use uhyve.Linux.Virtio.Negotiate.{read_requested_features, read_host_features}

-- Why the virtual CPU stops, as src/vm.rs has it.
pub data VcpuStopReason : Type 0 where
  exits : ℕ → VcpuStopReason
  debugs : VcpuStopReason
  kick : VcpuStopReason

-- An exit, as the package kvm_ioctls reports it: the value of `run`, an error among them.
pub data VcpuExit : Type 0 where
  hlt : VcpuExit
  shutdown : VcpuExit
  io_in : (port : ℕ) → Slice → VcpuExit
  io_out : (port : ℕ) → Slice → VcpuExit
  debug : VcpuExit
  internal_error : VcpuExit
  other : VcpuExit
  interrupted : VcpuExit
  error : VcpuExit

-- What the hypervisor is run with: its command line and environment, where the guest's memory
-- begins, the calls of libc and of the host's devices, standard output, and the channel to the
-- network writer, whose `send` panics with `none`.
pub record Surroundings (W : Type 0) : Type 0 where
  pub vm_start : ℕ
  pub path : List ℕ
  pub arguments : List (List ℕ)
  pub vars : List (List ℕ × List ℕ)
  pub libc : Libc W
  pub host : Host
  pub print : List ℕ → W → Option W
  pub tx : Option (W → Option W)
  pub fuel : ℕ

-- The state that exits change: memory, the card, the PCI address, the packets sent and the host.
pub record Machine (W : Type 0) : Type 0 where
  pub memory : Memory
  pub card : VirtioNetPciDevice
  pub pci_addr : Option ℕ
  pub sent : List (List ℕ)
  pub world : W

-- After an exit: on to the next, with what the guest reads; a stop; an error; a panic; or
-- nothing yet: a `write` that has not ended within its fuel, or no further exit.
pub data Outcome (W : Type 0) : Type 0 where
  resumes : Machine W → Slice → Outcome W
  stops : VcpuStopReason → Machine W → Outcome W
  fails : Machine W → Outcome W
  panics : Outcome W
  hangs : Outcome W

-- A slice whose first four bytes are all ones; the length is not looked at.
abbrev pub all_ones : Slice → Slice
all_ones dest = record dest { bytes = store 4 dest.bytes 0 0xffff_ffff }

module _ {W : Type 0} where
  -- Answers to the guest, and changes of the card, that can panic.
  abbrev pub answer : Machine W → Option Slice → Outcome W
  answer s none = panics
  answer s (some dest) = resumes s dest

  abbrev pub with_card : Machine W → Slice → Option VirtioNetPciDevice → Outcome W
  with_card s src none = panics
  with_card s src (some card) = resumes (record s { card = card }) src

  unfoldable pub pci_read : Machine W → Slice → Outcome W
  pci_read s dest = elim s.pci_addr [
    | none ↦ resumes s (all_ones dest)
    | some pci_addr ↦
        if bit_and pci_addr 0x1f_f800 == 0
        then answer s (handle_read s.card (bit_and pci_addr 0x3ff) dest)
        else resumes s (all_ones dest)
  ]

  unfoldable pub pci_write : Machine W → Slice → Outcome W
  pci_write s src = elim s.pci_addr [
    | none ↦ resumes s src
    | some pci_addr ↦
        if bit_and pci_addr 0x1f_f800 == 0
        then with_card s src (handle_write s.card (bit_and pci_addr 0x3ff) src)
        else resumes s src
  ]

  unfoldable pub handle_io_in : Machine W → ℕ → Slice → Outcome W
  unfolding pci_read
  handle_io_in s port addr =
      if port == Port.pci_config_data
      then pci_read s addr
      else if port == Port.pci_config_address
      then resumes s addr
      else if port == Port.status
      then answer s (read_status s.card addr)
      else if port == Port.host_features
      then answer s (read_host_features s.card addr)
      else if port == Port.guest_features
      then answer s (read_requested_features s.card addr)
      else if leb Port.config_off_msix_off port && leb port Port.config_off_msix_off_max
      then answer s (read_mac_byte s.card addr (port - Port.config_off_msix_off))
      else if port == Port.isr
      then resumes s addr
      else if port == Port.link_status_msix_off
      then answer s (read_link_status s.card addr)
      else resumes s addr
