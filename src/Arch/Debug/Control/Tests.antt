-- ===== src/Arch/Debug/Control/Tests.antt =====
-- The debug registers of a package that keeps the fields of each breakpoint in a list.
use uhyve.Prelude.{
  Bool, [], arith, false, get_elem?, if◌then◌else◌, none, refl, some, true, ℕ, ◌==◌, ◌∷◌, ◌≡◌,
}
use uhyve.Arch.Debug.{HwBreakpoints, HwBreakpointCondition, instruction_execution, data_writes}
use uhyve.Arch.Debug.Control.{Dr7, IsFields, control_value, registers}
use uhyve.Arch.Debug.Control.Put.{IsPut, registers-IsPut, slot_at}

record Fields : Type 0 where
  on : ℕ → Bool
  conditions : ℕ → HwBreakpointCondition
  sizes : ℕ → ℕ

abbrev dr7 : Dr7 Fields
dr7 = record {
  exact = record { on = λ k. false; conditions = λ k. instruction_execution; sizes = λ k. 0 };
  insert_global_enable = λ n d. record d { on = λ k. if k == n then true else d.on k };
  set_condition = λ n c d. record d { conditions = λ k. if k == n then c else d.conditions k };
  set_size = λ n s d. record d { sizes = λ k. if k == n then s else d.sizes k };
  bits = λ d. if d.on 0 then 0x2702 else 0x2700;
}

abbrev dr7-IsFields : IsFields dr7
dr7-IsFields = record {
  enabled = λ k d. d.on k;
  condition = λ k d. d.conditions k;
  size = λ k d. d.sizes k;
  enabled_exact = λ k. refl;
  enabled_insert = λ k n d. refl;
  enabled_condition = λ k n c d. refl;
  enabled_size = λ k n s d. refl;
  condition_insert = λ k n d. refl;
  condition_condition = λ k n c d. refl;
  condition_size = λ k n s d. refl;
  size_insert = λ k n d. refl;
  size_condition = λ k n c d. refl;
  size_size = λ k n s d. refl;
}

abbrev one_set : HwBreakpoints
one_set =
    none ∷ some (record { addr = 0x2000; size = 3; condition = data_writes }) ∷ none ∷ none ∷ []

registers-IsPut_example :
    IsPut dr7 dr7-IsFields 1 (slot_at one_set 1) dr7.exact (control_value dr7 one_set)
    × (get_elem? (registers dr7 one_set) 1 ≡ some 0x2000)
    × (get_elem? (registers dr7 one_set) 7 ≡ some (dr7.bits (control_value dr7 one_set)))
registers-IsPut_example = registers-IsPut dr7 dr7-IsFields one_set 1 (omega arith)
