-- ===== src/Linux/Virtio/Device.antt =====
-- src/linux/virtio.rs: the state of the card and its registers. `none` is a panic: an index out of
-- bounds. The tap device and the lookup of its address are not this program's.
use uhyve.Prelude.{
  ℕ, zero, suc, ◌+◌, ◌*◌, ◌%◌, ◌^◌, ◌==◌, ltb, leb, if◌then◌else◌, bit_and, bit_or, not, ◌||◌,
  Option, none, some, ◌>>=◌, List, [], length, get_elem?, get_or, set, take, drop, replicate, shr,
}
use uhyve.Memory.{store_bytes, Slice, index_slice, set_slice}
use uhyve.Linux.Virtqueue.{Virtqueue}

abbrev pub status_acknowledge : ℕ
status_acknowledge = 0b00000001

abbrev pub status_driver : ℕ
status_driver = 0b00000010

abbrev pub status_driver_ok : ℕ
status_driver_ok = 0b00000100

abbrev pub status_features_ok : ℕ
status_features_ok = 0b00001000

abbrev pub status_driver_needs_reset : ℕ
status_driver_needs_reset = 0b01000000

abbrev pub status_failed : ℕ
status_failed = 0b10000000

abbrev pub vendor_id_register : ℕ
vendor_id_register = 0x0

abbrev pub device_id_register : ℕ
device_id_register = 0x2

abbrev pub status_register : ℕ
status_register = 0x6

abbrev pub class_register : ℕ
class_register = 0x8

abbrev pub bar0_register : ℕ
bar0_register = 0x10

abbrev pub tx_queue : ℕ
tx_queue = 1

abbrev pub iobase : ℕ
iobase = 0xc000

-- `VIRTIO_NET_F_STATUS` is bit 16 and `VIRTIO_NET_F_MAC` bit 5, by the virtio standard.
abbrev pub host_features : ℕ
host_features = bit_or (2 ^ 16) (2 ^ 5)

-- `size_of::<virtio_net_hdr>()`
abbrev pub net_header_size : ℕ
net_header_size = 10

-- What the lookup of a hardware address can answer.
pub data MacLookup : Type 0 where
  found : List ℕ → MacLookup
  no_address : MacLookup
  failed : MacLookup

-- A tap device, by the number that the host knows it by.
abbrev pub Iface : Type 0
Iface = ℕ

-- What the device uses of the host: opening a tap device, and the address of one.
pub record Host : Type 0 where
  pub open_tap : Option Iface
  pub mac_address : Iface → MacLookup

pub record VirtioNetPciDevice : Type 0 where
  pub registers : List ℕ
  pub requested_features : ℕ
  pub selected_queue_num : ℕ
  pub virt_queues : List Virtqueue
  pub iface : Option Iface
  pub mac_addr : List ℕ

abbrev pub write_u16 : List ℕ → ℕ → ℕ → List ℕ
write_u16 registers address value =
    set (set registers address (bit_and value 0xff)) (address + 1) (bit_and (shr value 8) 0xff)

abbrev pub read_u16 : Slice → ℕ → Option ℕ
read_u16 s address = do
  low ← index_slice s address
  high ← index_slice s (address + 1)
  some (bit_or low (high * 2 ^ 8))

unfoldable pub new : VirtioNetPciDevice
new =
    let r1 = write_u16 (replicate 0x40 0) vendor_id_register 0x1af4 in
    let r2 = write_u16 r1 device_id_register 0x1000 in
    let r3 = write_u16 r2 (class_register + 2) 0x0200 in
    let r4 = write_u16 r3 bar0_register iobase in
    record {
      registers = set r4 status_register status_driver_needs_reset;
      requested_features = 0;
      selected_queue_num = 0;
      virt_queues = [];
      iface = none;
      mac_addr = replicate 6 0;
    }

abbrev pub read_status_reg : VirtioNetPciDevice → ℕ
read_status_reg d = get_or d.registers status_register 0

abbrev pub write_status_reg : VirtioNetPciDevice → ℕ → VirtioNetPciDevice
write_status_reg d status = record d { registers = set d.registers status_register status }

-- `registers[STATUS_REGISTER] |= STATUS_DRIVER_NEEDS_RESET`
abbrev pub need_reset : VirtioNetPciDevice → VirtioNetPciDevice
need_reset d = write_status_reg d (bit_or (read_status_reg d) status_driver_needs_reset)

-- `dest.copy_from_slice(&self.registers[address..][..dest.len()])`
unfoldable pub handle_read : VirtioNetPciDevice → ℕ → Slice → Option Slice
handle_read d address dest =
    if leb (address + dest.len) (length d.registers)
    then some (record dest {
      bytes = store_bytes dest.bytes 0 (take dest.len (drop address d.registers));
    })
    else none

-- `for (i, var) in dest.iter().enumerate()`, with `left` rounds to go
unfoldable pub write_registers : ℕ → ℕ → ℕ → Slice → List ℕ → Option (List ℕ)
write_registers zero i address dest registers = some registers
write_registers (suc left) i address dest registers =
    let rest =
      write_registers left (i + 1) address dest
        (set registers (address + i) (dest.bytes i % 256)) in
    if ltb (address + i) (length registers) then rest else none

unfoldable pub handle_write : VirtioNetPciDevice → ℕ → Slice → Option VirtioNetPciDevice
unfolding write_registers
handle_write d address dest = do
  registers ← write_registers dest.len 0 address dest d.registers
  some (record d { registers = registers })

unfoldable pub read_status : VirtioNetPciDevice → Slice → Option Slice
unfolding handle_read
read_status d dest = handle_read d (bit_and status_register 0x3fff) dest

unfoldable pub read_mac_byte : VirtioNetPciDevice → Slice → ℕ → Option Slice
unfolding set_slice
read_mac_byte d dest i = do byte ← get_elem? d.mac_addr i; set_slice dest 0 byte

unfoldable pub get_mac_addr : Host → VirtioNetPciDevice → VirtioNetPciDevice
get_mac_addr host d = elim d.iface [
  | none ↦ d
  | some tap ↦ elim (host.mac_address tap) [
    | found mac ↦ record d { mac_addr = mac }
    | no_address ↦ need_reset d
    | failed ↦ need_reset d
  ]
]

unfoldable pub link_up : VirtioNetPciDevice → ℕ
link_up d =
    let status = read_status_reg d in
    if not (bit_and status status_failed == 0)
      || not (bit_and status status_driver_needs_reset == 0)
    then 0
    else elim d.iface [ some tap ↦ 1 | none ↦ 0 ]

unfoldable pub read_link_status : VirtioNetPciDevice → Slice → Option Slice
unfolding link_up set_slice
read_link_status d dest = set_slice dest 0 (link_up d)
