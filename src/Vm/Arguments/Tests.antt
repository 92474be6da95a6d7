-- ===== src/Vm/Arguments/Tests.antt =====
-- The hand-over of vm.rs on a concrete command line.
use uhyve.Vm.Arguments.Values.{assignment, cmdval_lem, put_strings}
use uhyve.Vm.Arguments.Scan.{after_separator}
use uhyve.Linux.Vcpu.Translate.{host_address}
use uhyve.Prelude.{List, [], arith, map, refl, some, take, ℕ, ◌+◌, ◌∷◌, ◌≡◌}
use uhyve.Memory.{Memory, load}
use uhyve.Vm.Arguments.{dashes, cmdsize, cmdval, max_envc}
use uhyve.Vm.Arguments.Sizes.{Var, IsSized, cmdsize-IsSized}

-- `uhyve x -- app --`, of which `app` and the second `--` are the application's.
abbrev arguments : List (List ℕ)
arguments = (117 ∷ []) ∷ (120 ∷ []) ∷ dashes ∷ (97 ∷ 112 ∷ 112 ∷ []) ∷ dashes ∷ []

abbrev path : List ℕ
path = 47 ∷ 107 ∷ []

abbrev vars : List Var
vars = (65 ∷ [], 49 ∷ 50 ∷ []) ∷ []

after_separator_test : after_separator arguments ≡ (97 ∷ 112 ∷ 112 ∷ []) ∷ dashes ∷ []
after_separator_test = refl

cmdsize-IsSized_example :
    (m' : Memory) × (cmdsize path arguments vars (λ _. 0) 0x2000 ≡ some m')
    × IsSized (λ _. 0) m' 0x2000 path (after_separator arguments) (take max_envc vars)
cmdsize-IsSized_example = cmdsize-IsSized path arguments vars (λ _. 0) 0x2000 (omega arith)

cmdval_lem_example :
    let argv = host_address 0 (load 8 (λ _. 0) 0x2000) in
    let m' = put_strings 0 (λ _. 0) argv 0 (path ∷ after_separator arguments) in
    let envp = host_address 0 (load 8 m' (0x2000 + 8)) in
    cmdval 0 path arguments vars (λ _. 0) 0x2000
    ≡ put_strings 0 m' envp 0 (map assignment (take max_envc vars))
cmdval_lem_example = cmdval_lem 0 path arguments vars (λ _. 0) 0x2000
