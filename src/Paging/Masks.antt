-- ===== src/Paging/Masks.antt =====
-- The masks of the paging code as arithmetic.
use uhyve.Prelude.{ℕ, ◌-◌, ◌*◌, ◌/◌, ◌%◌, ◌^◌, ◌<◌, ◌≡◌, arith, bit_and, not64}
use uhyve.Prelude.Bits.{bit_and_mask, bit_and_shifted, bit_and_bit}
use uhyve.Paging.{present, huge_page}

-- What the masks of the code read from a word.
pub huge_bit : (x : ℕ) → bit_and x huge_page ≡ x / 128 % 2 * 128
huge_bit x = bit_and_bit 7 x

pub above_page : (x : ℕ) → x < 2 ^ 64 → bit_and x (not64 4095) ≡ x / 4096 * 4096
above_page x h = ground (arith, bit_and_shifted 12 x (2 ^ 52 - 1), bit_and_mask 52 (x / 4096))

pub above_large : (x : ℕ) → x < 2 ^ 64 → bit_and x (not64 (2 ^ 21 - 1)) ≡ x / 2 ^ 21 * 2 ^ 21
above_large x h = ground (arith, bit_and_shifted 21 x (2 ^ 43 - 1), bit_and_mask 43 (x / 2 ^ 21))

pub above_huge : (x : ℕ) → x < 2 ^ 64 → bit_and x (not64 (2 ^ 30 - 1)) ≡ x / 2 ^ 30 * 2 ^ 30
above_huge x h = ground (arith, bit_and_shifted 30 x (2 ^ 34 - 1), bit_and_mask 34 (x / 2 ^ 30))

pub below_nx : (x : ℕ) → bit_and x (not64 (2 ^ 63)) ≡ x % 2 ^ 63
below_nx x = bit_and_mask 63 x

pub present_bit : (x : ℕ) → bit_and x present ≡ x % 2
present_bit x = bit_and_mask 1 x
