-- ===== src/Vm/Arguments/Values.antt =====
-- `cmdval` in terms of the arguments behind the first `--`.
use mathlib.Core.List.{append_assoc}
use uhyve.Prelude.{
  List, [], arith, leb, map, refl, take, true, ℕ, ◌++◌, ◌+◌, ◌-◌, ◌∷◌, ◌≡◌, Bool-cases, ap, false,
  inl, inr, ltb, suc, zero, ◌∙◌, ◌≤◌,
}
use uhyve.Memory.{Memory, load}
use uhyve.Linux.Vcpu.Translate.{host_address}
use uhyve.Vm.Arguments.{
  put_string, put_arguments, put_vars, cmdval, max_envc, dashes, eq_bytes, see,
}
use uhyve.Vm.Arguments.Scan.{after_separator, sep_at, before}
use uhyve.Vm.Arguments.Sizes.{Var}

-- Strings with a zero at their ends, one for each entry of a table from entry `i` on.
unfoldable pub put_strings : (vm_start : ℕ) → Memory → (table i : ℕ) → List (List ℕ) → Memory
put_strings vm_start m table i [] = m
put_strings vm_start m table i (s ∷ ss) =
    put_strings vm_start (put_string vm_start m table i (s ++ 0 ∷ [])) table (i + 1) ss

-- `key=value`
abbrev pub assignment : Var → List ℕ
assignment v = v.0 ++ 61 ∷ v.1

module _ (vm_start : ℕ) where
  put_arguments-after :
      (m : Memory) (argv : ℕ) (xs : List (List ℕ)) (p k : ℕ)
      → put_arguments vm_start m argv xs (sep_at p (p + k)) ≡ put_strings vm_start m argv (k + 1) xs
  unfolding put_arguments put_strings
  put_arguments-after m argv [] p k = refl
  put_arguments-after m argv (a ∷ xs) p k =
      let i : p + k - p + 1 ≡ k + 1 = omega arith in
      let next : p + k + 1 ≡ p + (k + 1) = omega arith in
      let passes : leb p (p + k) ≡ true = ground arith in
      let put = put_string vm_start m argv (k + 1) (a ++ 0 ∷ []) in
      rw (passes, i, next) (put_arguments-after put argv xs p (k + 1))

  put_arguments-found :
      (m : Memory) (argv : ℕ) (a : List ℕ) (xs : List (List ℕ)) (c : ℕ)
      → eq_bytes a dashes ≡ true
      → put_arguments vm_start m argv (a ∷ xs) (before c)
        ≡ put_arguments vm_start m argv xs (sep_at (c + 1) (c + 1 + 0))
  unfolding put_arguments see
  put_arguments-found m argv a xs c separator =
      let late : leb (c + 1) c ≡ false = ground arith in
      let e : c + 1 + 0 ≡ c + 1 = omega arith in rw (separator, late, e) refl

  put_arguments-passed :
      (m : Memory) (argv : ℕ) (a : List ℕ) (xs : List (List ℕ)) (c : ℕ)
      → eq_bytes a dashes ≡ false
      → put_arguments vm_start m argv (a ∷ xs) (before c)
        ≡ put_arguments vm_start m argv xs (before (c + 1))
  unfolding put_arguments see
  put_arguments-passed m argv a xs c other = rw other refl

  put_arguments_lem :
      (m : Memory) (argv : ℕ) (xs : List (List ℕ)) (c : ℕ)
      → put_arguments vm_start m argv xs (before c)
        ≡ put_strings vm_start m argv 1 (after_separator xs)
  unfolding put_arguments put_strings
  put_arguments_lem m argv [] c = refl
  put_arguments_lem m argv (a ∷ xs) c = elim (Bool-cases (eq_bytes a dashes)) [
    | inl separator ↦
        put_arguments-found m argv a xs c separator
        ∙ put_arguments-after m argv xs (c + 1) 0
        ∙ rw separator refl
    | inr other ↦
        put_arguments-passed m argv a xs c other
        ∙ put_arguments_lem m argv xs (c + 1)
        ∙ rw other refl
  ]

  put_vars-full :
      (m : Memory) (envp : ℕ) (vars : List Var) (counter : ℕ)
      → max_envc ≤ counter
      → put_vars vm_start m envp vars counter ≡ m
  unfolding put_vars
  put_vars-full m envp [] counter full = refl
  put_vars-full m envp (v ∷ vars) counter full =
      let no_room : ltb counter max_envc ≡ false = ground arith in
      rw no_room (put_vars-full m envp vars counter full)

  put_vars_lem :
      (m : Memory) (envp : ℕ) (vars : List Var) (counter room : ℕ)
      → counter + room ≡ max_envc
      → put_vars vm_start m envp vars counter
        ≡ put_strings vm_start m envp counter (map assignment (take room vars))
  unfolding put_vars put_strings
  put_vars_lem m envp [] counter zero e = refl
  put_vars_lem m envp [] counter (suc room) e = refl
  put_vars_lem m envp (v ∷ vars) counter zero e =
      put_vars-full m envp (v ∷ vars) counter (omega arith)
  put_vars_lem m envp (v ∷ vars) counter (suc room) e =
      let has_room : ltb counter max_envc ≡ true = ground arith in
      let string = append_assoc v.0 (61 ∷ v.1) (0 ∷ []) in
      let put = put_string vm_start m envp counter (assignment v ++ 0 ∷ []) in
      let step : put_vars vm_start m envp (v ∷ vars) counter
          ≡ put_vars vm_start put envp vars (counter + 1) =
        rw (has_room, string) refl in
      step ∙ put_vars_lem put envp vars (counter + 1) room (omega arith)

-- `cmdval` writes the path and the arguments behind the first `--` through the table `argv`, and
-- `key=value` for the first 128 variables through `envp`, each with a zero at its end.
pub cmdval_lem :
    (vm_start : ℕ) (path : List ℕ) (arguments : List (List ℕ)) (vars : List Var) (m : Memory)
    (args_ptr : ℕ)
    → let argv = host_address vm_start (load 8 m args_ptr) in
      let m' = put_strings vm_start m argv 0 (path ∷ after_separator arguments) in
      let envp = host_address vm_start (load 8 m' (args_ptr + 8)) in
      cmdval vm_start path arguments vars m args_ptr
      ≡ put_strings vm_start m' envp 0 (map assignment (take max_envc vars))
unfolding cmdval put_strings
cmdval_lem vm_start path arguments vars m args_ptr =
    let argv = host_address vm_start (load 8 m args_ptr) in
    let m1 = put_string vm_start m argv 0 (path ++ 0 ∷ []) in
    let args = put_arguments_lem vm_start m1 argv arguments 0 in
    let m2 = put_strings vm_start m1 argv 1 (after_separator arguments) in
    let envp = host_address vm_start (load 8 m2 (args_ptr + 8)) in
    ap
      (λ (m' : Memory).
        put_vars vm_start m' (host_address vm_start (load 8 m' (args_ptr + 8))) vars 0)
      args
    ∙ put_vars_lem vm_start m2 envp vars 0 128 refl
