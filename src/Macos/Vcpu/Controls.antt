-- ===== src/Macos/Vcpu/Controls.antt =====
-- `cap2ctrl`, and the control words that `setup_capabilities` writes.
use uhyve.Prelude.Bits.{bit_and_digit, bit_and_mask, bit_or_digit, low_digit, pow-add}
use native.Mathlib.Nat.{div-div-eq-div-mul}
use uhyve.Prelude.{max, min, bit_and, bit_or, min, shr, ℕ, ◌%◌, ◌+◌, ◌/◌, ◌<◌, ◌^◌, ◌≡◌, refl}

unfoldable pub cap2ctrl : (cap ctrl : ℕ) → ℕ
cap2ctrl cap ctrl = bit_and (bit_or ctrl (bit_and cap 0xffff_ffff)) (shr cap 32)

-- The capabilities of the processor, as `read_vmx_cap` gives them.
pub record VmxCap : Type 0 where
  pub pinbased : ℕ
  pub procbased : ℕ
  pub procbased2 : ℕ
  pub entry : ℕ
  pub exit : ℕ

-- PIN_BASED_INTR, PIN_BASED_NMI and PIN_BASED_VIRTUAL_NMI
abbrev pub cap_pinbased : VmxCap → ℕ
cap_pinbased caps = cap2ctrl caps.pinbased (bit_or (bit_or (2 ^ 0) (2 ^ 3)) (2 ^ 5))

-- SECONDARY_CTLS, MWAIT, MSR_BITMAPS, MONITOR, TSC_OFFSET and TPR_SHADOW of CPU_BASED
abbrev pub cap_procbased : VmxCap → ℕ
cap_procbased caps = cap2ctrl caps.procbased (
    bit_or (bit_or (bit_or (bit_or (bit_or (2 ^ 31) (2 ^ 10)) (2 ^ 28)) (2 ^ 29)) (2 ^ 3)) (2 ^ 21))

-- CPU_BASED2_RDTSCP and CPU_BASED2_APIC_REG_VIRT
abbrev pub cap_procbased2 : VmxCap → ℕ
cap_procbased2 caps = cap2ctrl caps.procbased2 (bit_or (2 ^ 3) (2 ^ 8))

-- VMENTRY_LOAD_EFER and VMENTRY_GUEST_IA32E
abbrev pub cap_entry : VmxCap → ℕ
cap_entry caps = cap2ctrl caps.entry (bit_or (2 ^ 15) (2 ^ 9))

abbrev pub cap_exit : VmxCap → ℕ
cap_exit caps = cap2ctrl caps.exit 0

abbrev pub bit : (k x : ℕ) → ℕ
bit k x = x / 2 ^ k % 2

-- Each of the 32 bits of a control word is set if and only if it is wanted by the caller or required
-- by the low half of the capability, and allowed by its high half.
bit-cap2ctrl :
    (cap ctrl k : ℕ)
    → k < 32
    → bit k (cap2ctrl cap ctrl) ≡ min (max (bit k ctrl) (bit k cap)) (bit (32 + k) cap)
unfolding cap2ctrl
bit-cap2ctrl cap ctrl k h =
    let low = bit_and_mask 32 cap in
    rw
      (
        bit_and_digit k (bit_or ctrl (bit_and cap 0xffff_ffff)) (shr cap 32),
        bit_or_digit k ctrl (bit_and cap 0xffff_ffff),
        low,
        low_digit 32 k cap h,
        div-div-eq-div-mul cap (2 ^ 32) (2 ^ k),
        pow-add 32 k,
      )
      refl
