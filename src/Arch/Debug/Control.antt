-- ===== src/Arch/Debug/Control.antt =====
-- `control_value` and `registers` of src/arch/x86_64/registers/debug.rs: the breakpoints as the
-- processor takes them. The control register DR7 belongs to the package x86_64.
pub mod Put
mod Tests
use uhyve.Prelude.{
  Bool, List, Option, [], false, get_elem?, if◌then◌else◌, none, some, true, ℕ, ◌+◌, ◌==◌, ◌∷◌, ◌≡◌,
}
use uhyve.Arch.Debug.{HwBreakpoint, HwBreakpoints, HwBreakpointCondition}

-- The type of the package for DR7, and its operations: `exact` has the two flags for exact
-- breakpoints and the one for general detection.
pub record Dr7 (D : Type 0) : Type 0 where
  pub exact : D
  pub insert_global_enable : (n : ℕ) → D → D
  pub set_condition : (n : ℕ) → HwBreakpointCondition → D → D
  pub set_size : (n : ℕ) → (size : ℕ) → D → D
  pub bits : D → ℕ

-- What it documents: each breakpoint has a bit and two fields of its own.
pub record IsFields {D : Type 0} (dr7 : Dr7 D) : Type 0 where
  pub enabled : ℕ → D → Bool
  pub condition : ℕ → D → HwBreakpointCondition
  pub size : ℕ → D → ℕ
  pub enabled_exact : (k : ℕ) → enabled k dr7.exact ≡ false
  pub enabled_insert :
      (k n : ℕ) (d : D)
      → enabled k (dr7.insert_global_enable n d) ≡ (if k == n then true else enabled k d)
  pub enabled_condition :
      (k n : ℕ) (c : HwBreakpointCondition) (d : D)
      → enabled k (dr7.set_condition n c d) ≡ enabled k d
  pub enabled_size : (k n s : ℕ) (d : D) → enabled k (dr7.set_size n s d) ≡ enabled k d
  pub condition_insert :
      (k n : ℕ) (d : D) → condition k (dr7.insert_global_enable n d) ≡ condition k d
  pub condition_condition :
      (k n : ℕ) (c : HwBreakpointCondition) (d : D)
      → condition k (dr7.set_condition n c d) ≡ (if k == n then c else condition k d)
  pub condition_size : (k n s : ℕ) (d : D) → condition k (dr7.set_size n s d) ≡ condition k d
  pub size_insert : (k n : ℕ) (d : D) → size k (dr7.insert_global_enable n d) ≡ size k d
  pub size_condition :
      (k n : ℕ) (c : HwBreakpointCondition) (d : D) → size k (dr7.set_condition n c d) ≡ size k d
  pub size_size :
      (k n s : ℕ) (d : D) → size k (dr7.set_size n s d) ≡ (if k == n then s else size k d)

module _ {D : Type 0} (dr7 : Dr7 D) where
  abbrev pub enable : (n : ℕ) → HwBreakpoint → D → D
  enable n b d =
      dr7.set_size n b.size (dr7.set_condition n b.condition (dr7.insert_global_enable n d))

  -- The loop over the slots from number `n` on.
  unfoldable pub put_slots : (n : ℕ) → HwBreakpoints → D → D
  put_slots n [] d = d
  put_slots n (none ∷ slots) d = put_slots (n + 1) slots d
  put_slots n (some b ∷ slots) d = put_slots (n + 1) slots (enable n b d)

  unfoldable pub control_value : HwBreakpoints → D
  unfolding put_slots
  control_value slots = put_slots 0 slots dr7.exact

  -- `address(self.0[n])`; there are four slots.
  abbrev pub address : HwBreakpoints → (n : ℕ) → ℕ
  address slots n = elim (get_elem? slots n) [ none ↦ 0 | some none ↦ 0 | some (some b) ↦ b.addr ]

  unfoldable pub registers : HwBreakpoints → List ℕ
  unfolding control_value
  registers slots =
      address slots 0
      ∷ address slots 1
      ∷ address slots 2
      ∷ address slots 3
      ∷ 0
      ∷ 0
      ∷ 0
      ∷ dr7.bits (control_value slots)
      ∷ []
