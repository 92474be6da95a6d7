-- ===== src/Paging/Entry.antt =====
-- What an entry holds after `set` and `set_flags`.
use uhyve.Prelude.{
  ℕ, zero, suc, ◌+◌, ◌-◌, ◌*◌, ◌/◌, ◌%◌, ◌^◌, ◌<◌, ◌≡◌, refl, arith, true, false, some, ◌==◌,
  bit_and, bit_or,
}
use uhyve.Prelude.Bits.{
  bit_and_split, bit_or_split, bit_and_mask, bit_or_fields, bit_and_shifted, zero-bit_or,
}
use uhyve.Paging.Masks.{huge_bit, above_page, above_large, below_nx, present_bit}
use uhyve.Paging.{
  PageTableEntry, present, is_present, is_hugepage, address, set, set_flags, get_flags, flags_mask,
}

-- Flags as the bits 0 to 11 and bit 63, which the type `PageTableEntryFlags` keeps them to.
abbrev pub join_flags : ℕ → ℕ → ℕ
join_flags low nx = nx * 2 ^ 63 + low

bit_or_one : (b : ℕ) → b < 2 → bit_or 1 b ≡ 1
bit_or_one zero h = refl
bit_or_one (suc zero) h = refl
bit_or_one (suc (suc b)) h = absurd (omega arith)

-- `PRESENT | flags` sets bit 0.
bit_or_present : (low : ℕ) → bit_or 1 low ≡ low / 2 * 2 + 1
bit_or_present low =
    ground
      (arith, bit_or_split 1 0 1 (low / 2) (low % 2), bit_or_one (low % 2), zero-bit_or (low / 2))

-- An entry with an address, the low flags and bit 63, as a sum.
set-sum :
    (phys low nx : ℕ)
    → phys % 4096 ≡ 0
    → phys < 2 ^ 63
    → low < 4096
    → nx < 2
    → bit_or phys (bit_or present (join_flags low nx)) ≡ nx * 2 ^ 63 + phys + (low / 2 * 2 + 1)
set-sum phys low nx hp hs hl hn = ground (
  arith,
  bit_or_present low,
  bit_or_split 63 0 1 nx low,
  bit_or_split 63 0 phys nx (low / 2 * 2 + 1),
  bit_or_fields 12 (phys / 4096) (low / 2 * 2 + 1),
  zero-bit_or nx,
)

flag_bits : (x : ℕ) → bit_and x flags_mask ≡ x / 2 ^ 63 % 2 * 2 ^ 63 + x % 4096
flag_bits x = ground (
  arith,
  bit_and_split 63 (x / 2 ^ 63) (x % 2 ^ 63) 1 4095,
  bit_and_mask 1 (x / 2 ^ 63),
  bit_and_mask 12 (x % 2 ^ 63),
)

-- `set` with an address below 2 ^ 63 that is aligned as the flags ask for, and flags of the bits 0 to
-- 11 and 63, succeeds: the entry gives back the address, and the flags with PRESENT and no other flag
-- besides; it is present, and huge exactly if the flags say so.
pub set-address :
    (phys low nx : ℕ)
    → phys % 4096 ≡ 0
    → (low / 128 % 2 ≡ 1 → phys % 2 ^ 21 ≡ 0)
    → phys < 2 ^ 63
    → low < 4096
    → nx < 2
    → (e : PageTableEntry) × (set phys (join_flags low nx) ≡ some e)
      × (address e ≡ phys)
      × (get_flags e ≡ bit_or present (join_flags low nx))
      × (is_present e ≡ true)
      × (is_hugepage e ≡ (low / 128 % 2 == 1))
unfolding set address get_flags is_present is_hugepage
set-address phys low nx hp hh hs hl hn =
    let x = nx * 2 ^ 63 + phys + (low / 2 * 2 + 1) in
    (
      record { physical_address_and_flags = x },
      ground (arith, set-sum phys low nx hp hs hl hn, huge_bit (join_flags low nx)),
      ground (
        arith,
        huge_bit x,
        above_page x (omega arith),
        above_large x (omega arith),
        below_nx (x / 4096 * 4096),
        below_nx (x / 2 ^ 21 * 2 ^ 21),
      ),
      ground (arith, flag_bits x, bit_or_split 63 0 1 nx low, bit_or_present low, zero-bit_or nx),
      ground (arith, present_bit x),
      ground (arith, huge_bit x),
    )

-- `set_flags` as a sum: the address bits are kept, the flags are replaced.
set_flags-sum :
    (x f : ℕ)
    → (set_flags (record { physical_address_and_flags = x }) f).physical_address_and_flags
      ≡ f / 2 ^ 63 % 2 * 2 ^ 63 + x / 4096 % 2 ^ 51 * 4096 + f % 4096
unfolding set_flags
set_flags-sum x f =
    let kept = x / 4096 % 2 ^ 51 * 4096 in
    ground (
      arith,
      flag_bits f,
      bit_and_shifted 12 x (2 ^ 51 - 1),
      bit_and_mask 51 (x / 4096),
      bit_or_split 63 0 kept (f / 2 ^ 63 % 2) (f % 4096),
      bit_or_fields 12 (x / 4096 % 2 ^ 51) (f % 4096),
      zero-bit_or (f / 2 ^ 63 % 2),
    )

-- On an entry for a 4 KiB page `set_flags` with flags for such a page replaces the flags, with
-- bits 12 to 62 of the argument ignored, and keeps the address.
get_flags-set_flags :
    (e : PageTableEntry) (f : ℕ)
    → e.physical_address_and_flags < 2 ^ 64
    → f < 2 ^ 64
    → is_hugepage e ≡ false
    → f / 128 % 2 ≡ 0
    → (get_flags (set_flags e f) ≡ bit_and f flags_mask) × (address (set_flags e f) ≡ address e)
unfolding get_flags address is_hugepage
get_flags-set_flags e f he hf small page =
    let x = e.physical_address_and_flags in
    let y = (set_flags e f).physical_address_and_flags in
    (
      ground (arith, set_flags-sum x f, flag_bits y, flag_bits f),
      ground (
        arith,
        set_flags-sum x f,
        huge_bit x,
        huge_bit y,
        above_page x,
        above_page y,
        below_nx (x / 4096 * 4096),
        below_nx (y / 4096 * 4096),
      ),
    )
