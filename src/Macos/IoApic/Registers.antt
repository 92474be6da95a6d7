-- ===== src/Macos/IoApic/Registers.antt =====
-- The registers of the interrupt controller.
use native.Mathlib.Decide.{dec_lt}
use uhyve.Prelude.{
  ap, arith, get_elem?-eq-get_or, get_or, if◌then◌else◌, leb, length, length-set, ltb, refl, set,
  some, true, ℕ, ◌%◌, ◌&&◌, ◌+◌, ◌-◌, ◌<◌, ◌==◌, ◌^◌, ◌∙◌, ◌≡◌, ==_iff, false, get_or-set_ne,
  get_or-set_self, subst, all_below, all_below_lem,
}
use uhyve.Macos.IoApic.{IoApic, new, write, read}

-- The guest selects a register and writes to it, selects any register and reads: it finds the low
-- 32 bits of what it wrote if the registers are the same, and else what was there before.
read-write :
    (apic : IoApic) (i value j : ℕ)
    → i < length apic.rtbl
    → j < length apic.rtbl
    → (a1 : IoApic) × (a2 : IoApic) × (a3 : IoApic) × (write apic 0 i ≡ some a1)
      × (write a1 0x10 value ≡ some a2)
      × (write a2 0 j ≡ some a3)
      × (read a3 0 ≡ some j)
      × (read a3 0x10 ≡ some (if i == j then value % 2 ^ 32 else get_or apic.rtbl j 0))
unfolding write read
read-write apic i value j hi hj =
    let v = value % 2 ^ 32 in
    let rtbl = set apic.rtbl i v in
    let size = length-set apic.rtbl i v in
    let a1 = record apic { selector = i } in
    let in_table : ltb i (length apic.rtbl) ≡ true = ground arith in
    let found = get_elem?-eq-get_or rtbl j 0 (omega (arith, size)) in
    (
      a1,
      record a1 { rtbl = rtbl },
      record a1 { rtbl = rtbl; selector = j },
      refl,
      rw in_table refl,
      refl,
      refl,
      elim (dec_lt (i - j + (j - i)) 1) [
        | yes near ↦
            let same : i ≡ j = omega arith in
            let test : (i == j) ≡ true = ground arith in
            let here : get_or rtbl j 0 ≡ v =
              subst (λ (k : ℕ). get_or rtbl k 0 ≡ v) same (get_or-set_self apic.rtbl i v 0 hi) in
            rw test (found ∙ ap some here)
        | no far ↦
            let test : (i == j) ≡ false = ground arith in
            let kept = get_or-set_ne apic.rtbl i j v 0 (omega arith) in
            rw test (found ∙ ap some kept)
      ],
    )

-- What each register of a new controller holds.
abbrev pub initial : ℕ → ℕ
initial i = if i == 1 then 0x17_0011 else if leb 16 i && ltb i 24 then 0x1_0000 else 0

new_table : all_below 64 (λ i. get_or new.rtbl i 0 == initial i) ≡ true
unfolding new
new_table = refl

-- A new controller has its version in register 1, the mask bit in registers 16 to 23, and zero in
-- the other registers of its 64.
new_registers : (i : ℕ) → i < 64 → get_or new.rtbl i 0 ≡ initial i
new_registers i h =
    let holds = all_below_lem 64 (λ i. get_or new.rtbl i 0 == initial i) i new_table h in
    (==_iff (get_or new.rtbl i 0) (initial i)).0 holds
