-- ===== src/Linux/Vcpu/Exits/Pci.antt =====
-- The configuration space of the card, through the address and the data port.
use native.Mathlib.Decide.{dec_lt}
use uhyve.Linux.Vcpu.Port.{pci_config_address, pci_config_data, read}
use uhyve.Prelude.{
  List, arith, get_or, length, length-set, ltb, refl, set, some, suc, true, zero, ℕ, ◌%◌, ◌+◌, ◌<◌,
  ◌≡◌, ◌≤◌, bit_and, drop, get_or-set_ne, get_or-set_self, leb, length-drop, length-take, take, ◌∙◌,
  ap, get_or-drop, get_or-take,
}
use uhyve.Memory.{Slice, load, store_bytes}
use uhyve.Memory.Bytes.{store_bytes_inside}
use uhyve.Linux.Virtio.Device.{VirtioNetPciDevice, write_registers, handle_write, handle_read}
use uhyve.Linux.Vcpu.Port
use uhyve.Linux.Vcpu.Machine.{
  Machine, Surroundings, io_out, io_in, resumes, pci_read, pci_write, handle_io_in,
}
use uhyve.Linux.Vcpu.Exits.{handle_exit, handle_io_out}

-- The loop of `handle_write`: the registers below are kept, those of the slice are written.
write_registers_lem :
    (left i a : ℕ) (src : Slice) (rs : List ℕ)
    → a + i + left ≤ length rs
    → (rs' : List ℕ) × (write_registers left i a src rs ≡ some rs')
      × (length rs' ≡ length rs)
      × ((k : ℕ) → k < a + i → get_or rs' k 0 ≡ get_or rs k 0)
      × ((j : ℕ) → i ≤ j → j < i + left → get_or rs' (a + j) 0 ≡ src.bytes j % 256)
unfolding write_registers
write_registers_lem zero i a src rs room =
    (rs, refl, refl, (λ k below. refl), λ j low high. absurd (omega arith))
write_registers_lem (suc left) i a src rs room =
    let b = src.bytes i % 256 in
    let same_size = length-set rs (a + i) b in
    let in_range : ltb (a + i) (length rs) ≡ true = ground arith in
    let (rs', got, size, kept, written) =
      write_registers_lem left (i + 1) a src (set rs (a + i) b) (omega (arith, same_size)) in
    (
      rs',
      rw in_range got,
      size ∙ same_size,
      (λ k below. kept k (omega arith) ∙ get_or-set_ne rs (a + i) k b 0 (omega arith)),
      λ j low high. elim (dec_lt i j) [
        | yes later ↦ written j (omega arith) (omega arith)
        | no now ↦
            let this : i ≡ j = omega arith in
            let first = kept (a + i) (omega arith) ∙ get_or-set_self rs (a + i) b 0 (omega arith) in
            rw (← this) first
      ],
    )

-- What is read of registers that were written.
handle_read-handle_write :
    (d : VirtioNetPciDevice) (a : ℕ) (src dest : Slice)
    → a + src.len ≤ length d.registers
    → dest.len ≡ src.len
    → (d' : VirtioNetPciDevice) × (out : Slice) × (handle_write d a src ≡ some d')
      × (handle_read d' a dest ≡ some out)
      × ((i : ℕ) → i < src.len → out.bytes i ≡ src.bytes i % 256)
unfolding handle_write handle_read
handle_read-handle_write d a src dest room same =
    let (rs, got, size, kept, written) =
      write_registers_lem src.len 0 a src d.registers (omega arith) in
    let read = take dest.len (drop a rs) in
    let fits : leb (a + dest.len) (length rs) ≡ true = ground arith in
    let size_of_read : length read ≡ dest.len =
      omega (arith, length-take dest.len (drop a rs), length-drop a rs) in
    (
      record d { registers = rs },
      record dest { bytes = store_bytes dest.bytes 0 read },
      rw got refl,
      rw fits refl,
      λ i h.
          let e : i ≡ 0 + i = omega arith in
          ap (store_bytes dest.bytes 0 read) e
          ∙ store_bytes_inside dest.bytes 0 read i (omega arith)
          ∙ get_or-take dest.len (drop a rs) i (omega arith)
          ∙ get_or-drop a rs i
          ∙ written i (omega arith) (omega arith),
    )

-- The guest selects a register of the card by the address port, writes to it by the data port, and
-- reads back what it has written, if the bytes lie within the 64 of the configuration space.
pub pci_config_roundtrip :
    {W : Type 0} (env : Surroundings W) (s : Machine W) (addr src dest : Slice)
    → bit_and (load 4 addr.bytes 0) 0x1f_f800 ≡ 0
    → bit_and (load 4 addr.bytes 0) 0x3ff + src.len ≤ length s.card.registers
    → dest.len ≡ src.len
    → (s1 : Machine W) × (s2 : Machine W) × (out : Slice) × (handle_exit env s
          (io_out Port.pci_config_address addr)
        ≡ resumes s1 addr)
      × (handle_exit env s1 (io_out Port.pci_config_data src) ≡ resumes s2 src)
      × (handle_exit env s2 (io_in Port.pci_config_data dest) ≡ resumes s2 out)
      × ((i : ℕ) → i < src.len → out.bytes i ≡ src.bytes i % 256)
unfolding handle_exit handle_io_out handle_io_in pci_read pci_write
pci_config_roundtrip env s addr src dest selects room same =
    let at = load 4 addr.bytes 0 in
    let (d, out, written, read, same_bytes) =
      handle_read-handle_write s.card (bit_and at 0x3ff) src dest room same in
    let s1 = record s { pci_addr = some at } in
    (
      s1,
      record s1 { card = d },
      out,
      refl,
      rw (selects, written) refl,
      rw (selects, read) refl,
      same_bytes,
    )
