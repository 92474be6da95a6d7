-- ===== src/Linux/Vcpu/Cpuid/Name.antt =====
-- The name of the processor on KVM and on macOS.
use uhyve.Prelude.{
  List, [], false, refl, some, true, ℕ, ◌++◌, ◌==◌, ◌∙◌, ◌∷◌, ◌≡◌, bit_or, codes, get_elem?, length,
}
use uhyve.Macos.Vcpu.Cpuid.Brand.{brand, word_bytes}
use uhyve.Linux.Vcpu.Cpuid.{setup_cpuid, CpuidEntry}
use uhyve.Linux.Vcpu.Cpuid.Patch.{
  find_entry, HasLeaves, IsPatchedPlace, setup_cpuid-IsPatched, patched,
}
use uhyve.Memory.{load, store_bytes}

abbrev pub entry_bytes : CpuidEntry → List ℕ
entry_bytes r = word_bytes r.eax ++ word_bytes r.ebx ++ word_bytes r.ecx ++ word_bytes r.edx

-- A text ends at its first zero.
abbrev pub c_string : List ℕ → List ℕ
c_string [] = []
c_string (b ∷ bs) = elim (b == 0) [ true ↦ [] | false ↦ b ∷ c_string bs ]

-- The table that the guest reads instead of KVM's.
pub record IsNamed (es es' : List CpuidEntry) (first_leaf tenth_leaf : CpuidEntry) : Type 0 where
  pub name :
      (x : CpuidEntry) × (y : CpuidEntry) × (z : CpuidEntry) × (find_entry 0x8000_0002 es' ≡ some x)
      × (find_entry 0x8000_0003 es' ≡ some y)
      × (find_entry 0x8000_0004 es' ≡ some z)
      × (c_string (entry_bytes x ++ entry_bytes y ++ entry_bytes z)
          ≡ codes "uhyve - unikernel hypervisor")
  pub features :
      find_entry 1 es'
      ≡ some (record first_leaf {
        ecx = bit_or (bit_or first_leaf.ecx 0x8000_0000) 0x0100_0000;
        edx = bit_or first_leaf.edx 0x20;
      })
  pub monitor : find_entry 0x0a es' ≡ some (record tenth_leaf { eax = 0 })
  pub size : length es' ≡ length es
  pub others : (n : ℕ) → ¬ IsPatchedPlace es n → get_elem? es' n ≡ get_elem? es n

-- With an entry for each of the five leaves, `setup_cpuid` does not panic. The three leaves of the
-- processor's name, read up to the first zero, spell "uhyve - unikernel hypervisor"; the first entry of
-- leaf 1 has bits 31 and 24 of ecx and bit 5 of edx set besides, that of leaf 10 has its eax zeroed;
-- and every other entry, later entries of the five leaves included, is the one that KVM proposed.
pub setup_cpuid-IsNamed :
    (es : List CpuidEntry)
    → (has : HasLeaves es)
    → (es' : List CpuidEntry) × (setup_cpuid es ≡ some es')
      × IsNamed es es' has.features has.monitor
unfolding load store_bytes
setup_cpuid-IsNamed es has =
    let (es', done, is) = setup_cpuid-IsPatched es has in
    (
      es',
      done,
      record {
        name = (
          patched 0x8000_0002 has.brand2,
          patched 0x8000_0003 has.brand3,
          patched 0x8000_0004 has.brand4,
          is.entries 0x8000_0002 ∙ rw has.has_brand2 refl,
          is.entries 0x8000_0003 ∙ rw has.has_brand3 refl,
          is.entries 0x8000_0004 ∙ rw has.has_brand4 refl,
          refl,
        );
        features = is.entries 1 ∙ rw has.has_features refl;
        monitor = is.entries 0x0a ∙ rw has.has_monitor refl;
        size = is.size;
        others = is.others;
      },
    )

-- On macOS the processor has the same name.
whole_name : c_string brand ≡ codes "uhyve - unikernel hypervisor"
whole_name = refl
