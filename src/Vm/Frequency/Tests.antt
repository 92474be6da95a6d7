-- ===== src/Vm/Frequency/Tests.antt =====
-- The frequency of a processor of 2400 MHz with a crystal of 24 MHz.
use uhyve.Prelude.{none, refl, some, ℕ, ◌*◌, ◌+◌, ◌/◌, ◌<◌, ◌≡◌, ◌≤◌, if◌then◌else◌, ltb, arith}
use uhyve.Vm.Frequency.{
  CpuId, TscInfo, cpu_freq, detect_freq_from_cpuid, detected, mhz_to_hz, undetected,
}
use uhyve.Vm.Frequency.Bounds.{detect_freq_from_cpuid_bounds}

abbrev tsc : TscInfo
tsc = record { tsc_frequency = none; denominator = 2; numerator = 200 }

abbrev no_ratio : TscInfo
no_ratio = record { tsc_frequency = none; denominator = 0; numerator = 200 }

abbrev cpuid_of : TscInfo → CpuId
cpuid_of t = record {
  tsc_info = some t;
  processor_base_frequency = some 2400;
  hypervisor_info = none;
}

detected_2400 : cpu_freq (cpuid_of tsc) 0 0 ≡ detected 2400
unfolding cpu_freq
detected_2400 = refl

undetected_0 :
    cpu_freq
      record { tsc_info = none; processor_base_frequency = none; hypervisor_info = some (some 500) }
      0
      0
    ≡ detected 0
unfolding cpu_freq
undetected_0 = refl

detect_freq_from_cpuid_bounds_example :
    (hz : ℕ) × (hz ≤ 2400000000)
    × (2400000000 * 2 < hz * 2 + 2 + 200)
    × (detect_freq_from_cpuid (cpuid_of tsc)
        ≡ (if ltb 0 hz then detected (hz / mhz_to_hz) else undetected))
detect_freq_from_cpuid_bounds_example =
    detect_freq_from_cpuid_bounds (cpuid_of tsc) tsc 2400 refl refl refl (omega arith) (omega arith)
      (omega arith) (omega arith)
