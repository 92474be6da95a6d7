-- ===== src/Arch/Debug/Control/Put.antt =====
-- What the control register says of each breakpoint.
use uhyve.Prelude.{
  Option, [], arith, false, get_elem?, none, refl, some, subst, suc, true, zero, ℕ, ◌+◌, ◌<◌, ◌==◌,
  ◌∙◌, ◌∷◌, ◌≡◌, ◌≢◌, ap,
}
use uhyve.Arch.Debug.{HwBreakpoint, HwBreakpoints}
use uhyve.Arch.Debug.Control.{Dr7, IsFields, enable, put_slots, control_value, registers, address}

-- The breakpoint in slot `k`, if there is one.
abbrev pub slot_at : HwBreakpoints → (k : ℕ) → Option HwBreakpoint
slot_at [] k = none
slot_at (s ∷ slots) zero = s
slot_at (s ∷ slots) (suc k) = slot_at slots k

module _ {D : Type 0} (dr7 : Dr7 D) (fields : IsFields dr7) where
  -- The fields of breakpoint `k`: those of its slot, and what they were before for an empty one.
  pub record IsPut (k : ℕ) (slot : Option HwBreakpoint) (before d : D) : Type 0 where
    pub is_enabled :
        fields.enabled k d ≡ elim slot [ none ↦ fields.enabled k before | some b ↦ true ]
    pub is_condition :
        fields.condition k d ≡ elim slot [ none ↦ fields.condition k before | some b ↦ b.condition ]
    pub is_size : fields.size k d ≡ elim slot [ none ↦ fields.size k before | some b ↦ b.size ]

  enable_self : (n : ℕ) (b : HwBreakpoint) (d : D) → IsPut n (some b) d (enable dr7 n b d)
  enable_self n b d =
      let self : (n == n) ≡ true = ground arith in
      record {
        is_enabled =
            simp (fields.enabled_size, fields.enabled_condition, fields.enabled_insert, self) refl;
        is_condition = simp (fields.condition_size, fields.condition_condition, self) refl;
        is_size = simp (fields.size_size, self) refl;
      }

  enable_ne : (k n : ℕ) (b : HwBreakpoint) (d : D) → k ≢ n → IsPut k none d (enable dr7 n b d)
  enable_ne k n b d differ =
      let other : (k == n) ≡ false = ground arith in
      record {
        is_enabled =
            simp (fields.enabled_size, fields.enabled_condition, fields.enabled_insert, other) refl;
        is_condition =
            simp (fields.condition_size, fields.condition_condition, fields.condition_insert, other)
              refl;
        is_size = simp (fields.size_size, fields.size_condition, fields.size_insert, other) refl;
      }

  IsPut-then :
      (k : ℕ) (slot : Option HwBreakpoint) (d e f : D)
      → IsPut k slot d e
      → IsPut k none e f
      → IsPut k slot d f
  IsPut-then k slot d e f first second = record {
    is_enabled = second.is_enabled ∙ first.is_enabled;
    is_condition = second.is_condition ∙ first.is_condition;
    is_size = second.is_size ∙ first.is_size;
  }

  IsPut-before :
      (k : ℕ) (slot : Option HwBreakpoint) (d e f : D)
      → IsPut k none d e
      → IsPut k slot e f
      → IsPut k slot d f
  IsPut-before k none d e f first second = IsPut-then k none d e f first second
  IsPut-before k (some b) d e f first second = record {
    is_enabled = second.is_enabled;
    is_condition = second.is_condition;
    is_size = second.is_size;
  }

  put_slots_above :
      (k n : ℕ) (slots : HwBreakpoints) (d : D) → k < n → IsPut k none d (put_slots dr7 n slots d)
  unfolding put_slots
  put_slots_above k n [] d less = record { is_enabled = refl; is_condition = refl; is_size = refl }
  put_slots_above k n (none ∷ slots) d less = put_slots_above k (n + 1) slots d (omega arith)
  put_slots_above k n (some b ∷ slots) d less =
      let e = enable dr7 n b d in
      IsPut-then k none d e (put_slots dr7 (n + 1) slots e)
        (enable_ne k n b d (λ same. omega (arith, same)))
        (put_slots_above k (n + 1) slots e (omega arith))

  put_slots-IsPut :
      (k n i : ℕ) (slots : HwBreakpoints) (d : D)
      → k ≡ n + i
      → IsPut k (slot_at slots i) d (put_slots dr7 n slots d)
  unfolding put_slots
  put_slots-IsPut k n i [] d e = record { is_enabled = refl; is_condition = refl; is_size = refl }
  put_slots-IsPut k n zero (none ∷ slots) d e = put_slots_above k (n + 1) slots d (omega arith)
  put_slots-IsPut k n zero (some b ∷ slots) d e =
      let same : n ≡ k = omega arith in
      let d' = enable dr7 n b d in
      IsPut-then k (some b) d d' (put_slots dr7 (n + 1) slots d')
        (subst (λ (q : ℕ). IsPut q (some b) d d') same (enable_self n b d))
        (put_slots_above k (n + 1) slots d' (omega arith))
  put_slots-IsPut k n (suc i) (none ∷ slots) d e = put_slots-IsPut k (n + 1) i slots d (omega arith)
  put_slots-IsPut k n (suc i) (some b ∷ slots) d e =
      let d' = enable dr7 n b d in
      IsPut-before k (slot_at slots i) d d' (put_slots dr7 (n + 1) slots d')
        (enable_ne k n b d (λ same. omega (arith, same)))
        (put_slots-IsPut k (n + 1) i slots d' (omega arith))

  address_lem :
      (slots : HwBreakpoints) (k : ℕ)
      → address dr7 slots k ≡ elim (slot_at slots k) [ none ↦ 0 | some b ↦ b.addr ]
  address_lem [] k = refl
  address_lem (none ∷ slots) zero = refl
  address_lem (some b ∷ slots) zero = refl
  address_lem (s ∷ slots) (suc k) = address_lem slots k

  address_at :
      (slots : HwBreakpoints) (k : ℕ)
      → k < 4
      → get_elem? (registers dr7 slots) k ≡ some (address dr7 slots k)
  unfolding registers
  address_at slots zero small = refl
  address_at slots (suc zero) small = refl
  address_at slots (suc (suc zero)) small = refl
  address_at slots (suc (suc (suc zero))) small = refl
  address_at slots (suc (suc (suc (suc k)))) small = absurd (omega arith)

  -- Every slot is programmed as it stands: the control register enables breakpoint `k` exactly if slot
  -- `k` is set, with its condition and its size, and the address register of each of the four has
  -- the slot's address, or zero.
  pub registers-IsPut :
      (slots : HwBreakpoints) (k : ℕ)
      → k < 4
      → IsPut k (slot_at slots k) dr7.exact (control_value dr7 slots)
        × (get_elem? (registers dr7 slots) k
            ≡ some (elim (slot_at slots k) [ none ↦ 0 | some b ↦ b.addr ]))
        × (get_elem? (registers dr7 slots) 7 ≡ some (dr7.bits (control_value dr7 slots)))
  unfolding registers
  registers-IsPut slots k small = (
    put_slots-IsPut k 0 k slots dr7.exact (omega arith),
    address_at slots k small ∙ ap some (address_lem slots k),
    refl,
  )
