-- ===== src/Vm/Frequency/Bounds.antt =====
-- The frequency that is worked out from the ratio to the crystal's clock.
use uhyve.Prelude.{
  arith, false, if◌then◌else◌, ltb, mul64, none, some, ℕ, ◌*◌, ◌+◌, ◌/◌, ◌<◌, ◌==◌, ◌^◌, ◌≡◌, ◌≤◌,
  ◌⊎◌,
}
use native.Mathlib.Nat.{
  div-mul-le_self, lt-div-mul-add, le_of_mul-le-mul_right, mod-eq_of_lt, lt_of_le_of_lt,
}
use uhyve.Vm.Frequency.{
  CpuId, TscInfo, detect_freq_from_cpuid, detected, undetected, freq_panics, from_hz, mhz_to_hz,
}

-- `a / b`, rounded down twice.
rounded :
    (h d n : ℕ) → 0 < d → 0 < n → let t = h * d / n * n / d in (t ≤ h) × (h * d < t * d + d + n)
rounded h d n pd pn =
    let c = h * d / n in
    let t = c * n / d in
    let low1 = div-mul-le_self (h * d) n in
    let high1 : h * d < c * n + n = lt-div-mul-add pn in
    let low2 = div-mul-le_self (c * n) d in
    let high2 : c * n < t * d + d = lt-div-mul-add pd in
    let scaled : t * d ≤ h * d = omega arith in (le_of_mul-le-mul_right scaled pd, omega arith)

-- A frequency that fits a 32-bit number of MHz is not a panic.
from_hz-small :
    {hz : ℕ}
    → hz < 2 ^ 32 * mhz_to_hz
    → from_hz hz ≡ (if ltb 0 hz then detected (hz / mhz_to_hz) else undetected)
from_hz-small small = ground arith

module _ (cpuid : CpuId) (tinfo : TscInfo) (base : ℕ) where
  -- Without a frequency of the counter itself, a base frequency of 16 bits is put through the ratio
  -- and back, if the ratio is not zero and the product fits 64 bits: the result is at most the base
  -- frequency, and lacks less than one crystal tick and one part of the ratio. There is no panic, and
  -- no error unless it rounds to zero.
  pub detect_freq_from_cpuid_bounds :
      cpuid.tsc_info ≡ some tinfo
      → tinfo.tsc_frequency ≡ none
      → cpuid.processor_base_frequency ≡ some base
      → base < 2 ^ 16
      → 0 < tinfo.numerator
      → 0 < tinfo.denominator
      → base * mhz_to_hz * tinfo.denominator < 2 ^ 64
      → (hz : ℕ) × (hz ≤ base * mhz_to_hz)
        × (base * mhz_to_hz * tinfo.denominator
            < hz * tinfo.denominator + tinfo.denominator + tinfo.numerator)
        × (detect_freq_from_cpuid cpuid
            ≡ (if ltb 0 hz then detected (hz / mhz_to_hz) else undetected))
  unfolding detect_freq_from_cpuid
  detect_freq_from_cpuid_bounds info no_frequency has_base small pn pd fits =
      let h = base * mhz_to_hz in
      let d = tinfo.denominator in
      let n = tinfo.numerator in
      let (below, above) = rounded h d n pd pn in
      let hz = h * d / n * n / d in
      let e1 : mul64 base mhz_to_hz ≡ h = omega arith in
      let e2 : mul64 h d ≡ h * d = mod-eq_of_lt fits in
      let back : h * d / n * n ≤ h * d = div-mul-le_self (h * d) n in
      let e3 : mul64 (h * d / n) n ≡ h * d / n * n = mod-eq_of_lt (lt_of_le_of_lt back fits) in
      let tn : (n == 0) ≡ false = ground arith in
      let td : (d == 0) ≡ false = ground arith in
      let at_most : hz < 2 ^ 32 * mhz_to_hz = omega arith in
      (
        hz,
        below,
        above,
        rw (info, no_frequency, has_base, e1, tn, e2, td, e3) (from_hz-small at_most),
      )

  -- A processor that does not know its ratio, and says so by a zero, makes the source divide by zero.
  detect_freq_from_cpuid-panics :
      cpuid.tsc_info ≡ some tinfo
      → tinfo.tsc_frequency ≡ none
      → cpuid.processor_base_frequency ≡ some base
      → (tinfo.numerator ≡ 0) ⊎ (tinfo.denominator ≡ 0)
      → detect_freq_from_cpuid cpuid ≡ freq_panics
  unfolding detect_freq_from_cpuid
  detect_freq_from_cpuid-panics info no_frequency has_base unknown =
      rw (info, no_frequency, has_base) (ground arith)
