-- ===== src/Linux/Vcpu/Cpuid.antt =====
-- src/linux/vcpu.rs, `setup_cpuid`, `setup_msrs` and `init`: the tables that KVM gives out, changed
-- and handed back. `none` is a panic: `unwrap` on a table without the entry.
use uhyve.Linux.Vcpu.Setup.{Regs, Sregs, setup_long_mode}
use uhyve.Prelude.{
  List, Option, [], bit_or, false, map, none, shl64, some, true, ℕ, ◌==◌, ◌>>=◌, ◌∷◌, Bool, codes,
  ◌++◌, ◌-◌,
}
use uhyve.Memory.{Memory, load, store_bytes}
pub mod Patch
pub mod Name

-- A `kvm_cpuid_entry2`; `index` is the subleaf, and the source finds an entry by `function` alone.
pub record CpuidEntry : Type 0 where
  pub function : ℕ
  pub index : ℕ
  pub flags : ℕ
  pub eax : ℕ
  pub ebx : ℕ
  pub ecx : ℕ
  pub edx : ℕ

-- `position(|&r| r.function == function).unwrap()`, and a change of the entry there
unfoldable pub update_entry :
    (function : ℕ) → (CpuidEntry → CpuidEntry) → List CpuidEntry → Option (List CpuidEntry)
update_entry function f [] = none
update_entry function f (r ∷ rs) = elim (r.function == function) [
  | true ↦ some (f r ∷ rs)
  | false ↦ update_entry function f rs >>= λ rs'. some (r ∷ rs')
]

-- The two parts of the name, with the zero that ends it.
abbrev pub first_name : List ℕ
first_name = codes "uhyve - unikerne"

abbrev pub second_name : List ℕ
second_name = codes "l hypervisor" ++ 0 ∷ []

-- `id_reg_values`, as the bytes of the four words
abbrev pub put_words : Memory → CpuidEntry → CpuidEntry
put_words m r = record r { eax = load 4 m 0; ebx = load 4 m 4; ecx = load 4 m 8; edx = load 4 m 12 }

-- The second part of the name is copied over the first one, in the same array.
abbrev pub first_words : Memory
first_words = store_bytes (λ _. 0) 0 first_name

abbrev pub second_words : Memory
second_words = store_bytes first_words 0 second_name

-- CPUID_EXT_HYPERVISOR, CPUID_TSC_DEADLINE and CPUID_ENABLE_MSR
abbrev pub put_features : CpuidEntry → CpuidEntry
put_features r = record r {
  ecx = bit_or (bit_or r.ecx (shl64 1 31)) (shl64 1 24);
  edx = bit_or r.edx (shl64 1 5);
}

unfoldable pub setup_cpuid : List CpuidEntry → Option (List CpuidEntry)
unfolding update_entry load store_bytes
setup_cpuid supported = do
  es1 ← update_entry 0x8000_0002 (put_words first_words) supported
  es2 ← update_entry 0x8000_0003 (put_words second_words) es1
  es3 ← update_entry 0x8000_0004 (λ r. record r { eax = 0; ebx = 0; ecx = 0; edx = 0 }) es2
  es4 ← update_entry 1 put_features es3
  update_entry 0x0a (λ r. record r { eax = 0 }) es4

-- A `kvm_msr_entry`
pub record MsrEntry : Type 0 where
  pub index : ℕ
  pub content : ℕ

-- Every register that KVM lists is zeroed, and the first entry of the table is replaced.
unfoldable pub setup_msrs : (msr_list : List ℕ) → Option (List MsrEntry)
setup_msrs [] = none
setup_msrs (i ∷ is) =
    some (record { index = 0x1a0; content = 1 } ∷ map (λ j. record { index = j; content = 0 }) is)

-- The parts of a virtual CPU of KVM that `init` sets.
pub record KvmVcpu : Type 0 where
  pub sregs : Sregs
  pub regs : Regs
  pub cpuid : List CpuidEntry
  pub runnable : Bool
  pub msrs : List MsrEntry

unfoldable pub init :
    (supported : List CpuidEntry)
    → (msr_list : List ℕ) → (entry_point : ℕ) → KvmVcpu
    → Option KvmVcpu
unfolding setup_long_mode setup_cpuid setup_msrs
init supported msr_list entry_point v = do
  let (sregs, regs) = setup_long_mode entry_point v.sregs v.regs
  cpuid ← setup_cpuid supported
  msrs ← setup_msrs msr_list
  some (record { sregs = sregs; regs = regs; cpuid = cpuid; runnable = true; msrs = msrs })
