-- ===== src/Vm/Parameter.antt =====
-- The parameters of a machine in src/vm.rs.
use uhyve.Prelude.{Bool, List, Option, ℕ}

-- What the command line asks for. A text is its bytes.
pub record Parameter : Type 0 where
  pub mem_size : ℕ
  pub num_cpus : ℕ
  pub verbose : Bool
  pub hugepage : Bool
  pub mergeable : Bool
  pub ip : Option (List ℕ)
  pub gateway : Option (List ℕ)
  pub mask : Option (List ℕ)
  pub nic : Option (List ℕ)
  pub gdbport : Option ℕ
