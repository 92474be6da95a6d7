-- ===== src/Vm/Frequency.antt =====
-- src/vm.rs, the frequency of the processor, in MHz, that the boot information is given. What CPUID
-- says (package raw_cpuid) and the two readings of the time-stamp counter are arguments.
use uhyve.Prelude.{Option, if◌then◌else◌, ltb, mul64, none, some, sub64, ℕ, ◌/◌, ◌==◌, ◌>>=◌, ◌^◌}
pub mod Bounds
mod Tests

abbrev pub mhz_to_hz : ℕ
mhz_to_hz = 1000000

abbrev pub khz_to_hz : ℕ
khz_to_hz = 1000

-- `TscInfo`: the frequency, if the package can compute it, and the ratio to the crystal's clock.
pub record TscInfo : Type 0 where
  pub tsc_frequency : Option ℕ
  pub denominator : ℕ
  pub numerator : ℕ

-- The leaves that the source asks for; the hypervisor's frequency is in kHz.
pub record CpuId : Type 0 where
  pub tsc_info : Option TscInfo
  pub processor_base_frequency : Option ℕ
  pub hypervisor_info : Option (Option ℕ)

-- A frequency, an error, or a panic.
pub data Detected : Type 0 where
  detected : (mhz : ℕ) → Detected
  undetected freq_panics : Detected

-- `try_into().unwrap()` to `u32`
abbrev pub to_u32 : ℕ → Detected
to_u32 n = if ltb n (2 ^ 32) then detected n else freq_panics

-- `a / b` panics at zero.
abbrev pub div_checked : ℕ → ℕ → Option ℕ
div_checked a b = if b == 0 then none else some (a / b)

-- The frequency from the base frequency, through that of the crystal.
abbrev pub crystal_frequency : TscInfo → (cpu_base_freq_hz : ℕ) → Option ℕ
crystal_frequency tinfo cpu_base_freq_hz = do
  crystal_hz ← div_checked (mul64 cpu_base_freq_hz tinfo.denominator) tinfo.numerator
  div_checked (mul64 crystal_hz tinfo.numerator) tinfo.denominator

-- `if hz > 0 { ... }`
abbrev pub from_hz : ℕ → Detected
from_hz hz = if ltb 0 hz then to_u32 (hz / mhz_to_hz) else undetected

abbrev pub from_crystal : Option ℕ → Detected
from_crystal none = freq_panics
from_crystal (some hz) = from_hz hz

unfoldable pub detect_freq_from_cpuid : CpuId → Detected
detect_freq_from_cpuid cpuid = elim cpuid.tsc_info [
  | none ↦ undetected
  | some tinfo ↦ elim tinfo.tsc_frequency [
    | some hz ↦ from_hz hz
    | none ↦ elim cpuid.processor_base_frequency [
      | none ↦ from_hz 0
      | some base ↦ from_crystal (crystal_frequency tinfo (mul64 base mhz_to_hz))
    ]
  ]
]

-- `if mhz > 0 { Ok(mhz) } else { Err(()) }`
abbrev pub nonzero : Detected → Detected
nonzero (detected mhz) = if ltb 0 mhz then detected mhz else undetected
nonzero undetected = undetected
nonzero freq_panics = freq_panics

unfoldable pub detect_freq_from_cpuid_hypervisor_info : CpuId → Detected
detect_freq_from_cpuid_hypervisor_info cpuid = elim cpuid.hypervisor_info [
  | none ↦ undetected
  | some info ↦ elim info [
    | none ↦ undetected
    | some khz ↦ nonzero (to_u32 (mul64 khz khz_to_hz / mhz_to_hz))
  ]
]

-- The ticks of 10 ms, from the readings before and after.
unfoldable pub get_cpu_frequency_from_os : (begin finish : ℕ) → Detected
get_cpu_frequency_from_os begin finish =
    if ltb 0 begin then to_u32 (mul64 (sub64 finish begin) 100 / mhz_to_hz) else undetected

-- `unwrap_or_else`
abbrev pub or_else : Detected → Detected → Detected
or_else (detected mhz) other = detected mhz
or_else undetected other = other
or_else freq_panics other = freq_panics

-- The choice of `load_kernel`.
unfoldable pub cpu_freq : CpuId → (begin finish : ℕ) → Detected
unfolding detect_freq_from_cpuid detect_freq_from_cpuid_hypervisor_info get_cpu_frequency_from_os
cpu_freq cpuid begin finish = or_else (detect_freq_from_cpuid cpuid) (
    or_else (detect_freq_from_cpuid_hypervisor_info cpuid)
      (or_else (get_cpu_frequency_from_os begin finish) (detected 0)))
