-- ===== src/Linux/Vcpu/Setup/Tests.antt =====
-- The first registers of linux/vcpu.rs.
use uhyve.Linux.Vcpu.Cpuid.Patch.{HasLeaves}
use uhyve.Linux.Vcpu.Cpuid.Name.{IsNamed, setup_cpuid-IsNamed}
use uhyve.Linux.Vcpu.Cpuid.{CpuidEntry, setup_cpuid}
use uhyve.Linux.Vcpu.Setup.Segments.{descriptor_of, setup_long_mode-HoldsGdt}
use uhyve.Prelude.{arith, some, ◌+◌, ◌≡◌, ◌≤◌, List, [], refl, ℕ, ◌∷◌}
use uhyve.Memory.{Memory, load}
use uhyve.Vm.GuestMem.{init_guest_mem}
use uhyve.Linux.Vcpu.Setup.{Sregs, Regs, setup_long_mode, code_segment}

abbrev sregs : Sregs
sregs = record {
  cs = code_segment;
  ds = code_segment;
  es = code_segment;
  ss = code_segment;
  gdt_base = 0;
  gdt_limit = 0;
  cr0 = 0;
  cr3 = 0;
  cr4 = 0;
  efer = 0;
}

abbrev regs : Regs
regs = record { rflags = 0; rip = 0; rdi = 0 }

setup_long_mode-HoldsGdt_example :
    let s = (setup_long_mode 0x80_0000 sregs regs).0 in
    (m' : Memory) × (init_guest_mem (λ _. 0) 0x700_0000 ≡ some m')
    × (load 8 m' (0x700_0000 + (s.gdt_base + s.cs.selector)) ≡ descriptor_of s.cs)
    × (load 8 m' (0x700_0000 + (s.gdt_base + s.ds.selector))
        ≡ descriptor_of (record s.ds { db = 1 }))
    × (load 8 m' (0x700_0000 + (s.gdt_base + s.es.selector))
        ≡ descriptor_of (record s.es { db = 1 }))
    × (load 8 m' (0x700_0000 + (s.gdt_base + s.ss.selector))
        ≡ descriptor_of (record s.ss { db = 1 }))
    × (s.cs.selector + 7 ≤ s.gdt_limit)
    × (s.ds.selector + 7 ≤ s.gdt_limit)
    × (s.es.selector + 7 ≤ s.gdt_limit)
    × (s.ss.selector + 7 ≤ s.gdt_limit)
    × (load 8 m' (0x700_0000 + s.cr3) ≡ 0x11003)
setup_long_mode-HoldsGdt_example =
    setup_long_mode-HoldsGdt 0x80_0000 sregs regs (λ _. 0) 0x700_0000 (omega arith)

abbrev leaf : ℕ → CpuidEntry
leaf n = record { function = n; index = 0; flags = 0; eax = 7; ebx = 7; ecx = 7; edx = 7 }

abbrev supported : List CpuidEntry
supported = leaf 0 ∷ leaf 1 ∷ leaf 10 ∷ leaf 0x8000_0002 ∷ leaf 0x8000_0003 ∷ leaf 0x8000_0004 ∷ []

abbrev supported-HasLeaves : HasLeaves supported
supported-HasLeaves = record {
  brand2 = leaf 0x8000_0002;
  has_brand2 = refl;
  brand3 = leaf 0x8000_0003;
  has_brand3 = refl;
  brand4 = leaf 0x8000_0004;
  has_brand4 = refl;
  features = leaf 1;
  has_features = refl;
  monitor = leaf 10;
  has_monitor = refl;
}

setup_cpuid-IsNamed_example :
    (es' : List CpuidEntry) × (setup_cpuid supported ≡ some es')
    × IsNamed supported es' (leaf 1) (leaf 10)
setup_cpuid-IsNamed_example = setup_cpuid-IsNamed supported supported-HasLeaves
