-- ===== src/Vm/Gdt.antt =====
-- src/vm.rs, `create_gdt_entry`: a segment descriptor from its flags, base and limit.
use uhyve.Prelude.{ℕ, ◌+◌, ◌-◌, ◌*◌, ◌/◌, ◌%◌, ◌^◌, ◌<◌, ◌≡◌, arith, bit_and, bit_or, shl64}
use uhyve.Prelude.Bits.{
  bit_and_split, bit_or_split, bit_and_mask, bit_or_fields, bit_and_shifted, bit_or-zero,
  zero-bit_or,
}

unfoldable pub create_gdt_entry : ℕ → ℕ → ℕ → ℕ
create_gdt_entry flags base limit =
    let base_high = shl64 (bit_and base 0xff00_0000) (56 - 24) in
    let flag_bits = shl64 (bit_and flags 0xf0ff) 40 in
    let limit_high = shl64 (bit_and limit 0xf_0000) (48 - 16) in
    let base_low = shl64 (bit_and base 0xff_ffff) 16 in
    bit_or (bit_or (bit_or (bit_or base_high flag_bits) limit_high) base_low) (bit_and limit 0xffff)

-- The fields where the processor looks for them.
abbrev pub descriptor_base : ℕ → ℕ
descriptor_base e = e / 2 ^ 56 % 2 ^ 8 * 2 ^ 24 + e / 2 ^ 16 % 2 ^ 24

abbrev pub descriptor_limit : ℕ → ℕ
descriptor_limit e = e / 2 ^ 48 % 2 ^ 4 * 2 ^ 16 + e % 2 ^ 16

-- The access byte, and above the gap of four bits the granularity nibble.
abbrev pub descriptor_flags : ℕ → ℕ
descriptor_flags e = e / 2 ^ 52 % 2 ^ 4 * 2 ^ 12 + e / 2 ^ 40 % 2 ^ 8

create_gdt_entry-sum :
    (flags base limit : ℕ)
    → create_gdt_entry flags base limit
      ≡ base / 2 ^ 24 % 256 * 2 ^ 56
        + flags / 2 ^ 12 % 16 * 2 ^ 52
        + limit / 2 ^ 16 % 16 * 2 ^ 48
        + flags % 256 * 2 ^ 40
        + base % 2 ^ 24 * 2 ^ 16
        + limit % 2 ^ 16
unfolding create_gdt_entry
create_gdt_entry-sum flags base limit =
    let bh = base / 2 ^ 24 % 256 in
    let fh = flags / 2 ^ 12 % 16 in
    let lh = limit / 2 ^ 16 % 16 in
    let fl = flags % 256 in
    let bl = base % 2 ^ 24 in
    ground (
      arith,
      bit_and_shifted 24 base 255,
      bit_and_mask 8 (base / 2 ^ 24),
      bit_and_split 12 (flags / 2 ^ 12) (flags % 2 ^ 12) 15 255,
      bit_and_mask 4 (flags / 2 ^ 12),
      bit_and_mask 8 (flags % 2 ^ 12),
      bit_and_shifted 16 limit 15,
      bit_and_mask 4 (limit / 2 ^ 16),
      bit_and_mask 24 base,
      bit_and_mask 16 limit,
      bit_or_fields 56 bh (fh * 2 ^ 52 + fl * 2 ^ 40),
      bit_or_split 52 (bh * 16 + fh) (fl * 2 ^ 40) 0 (lh * 2 ^ 48),
      bit_or-zero (bh * 16 + fh),
      bit_or_split 48 0 (fl * 2 ^ 40) lh 0,
      zero-bit_or lh,
      bit_or-zero (fl * 2 ^ 40),
      bit_or_fields 40 (bh * 2 ^ 16 + fh * 2 ^ 12 + lh * 2 ^ 8 + fl) (bl * 2 ^ 16),
      bit_or_fields 16 (bh * 2 ^ 40 + fh * 2 ^ 36 + lh * 2 ^ 32 + fl * 2 ^ 24 + bl)
          (limit % 2 ^ 16),
    )

-- A descriptor holds the base of 32 bits, the limit of 20 bits and the flags, of which bits 8 to
-- 11 are cleared, and nothing else.
create_gdt_entry_fields :
    (flags base limit : ℕ)
    → base < 2 ^ 32
    → limit < 2 ^ 20
    → flags < 2 ^ 16
    → let e = create_gdt_entry flags base limit in
      (descriptor_base e ≡ base)
      × (descriptor_limit e ≡ limit)
      × (descriptor_flags e ≡ flags / 2 ^ 12 * 2 ^ 12 + flags % 2 ^ 8)
      × (e < 2 ^ 64)
create_gdt_entry_fields flags base limit hb hl hf =
    omega (arith, create_gdt_entry-sum flags base limit)
