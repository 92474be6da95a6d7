-- ===== src/Linux/Vcpu/Setup/Segments.antt =====
-- The segment registers and the descriptors that the guest finds in memory.
use uhyve.Prelude.{arith, some, ℕ, ◌*◌, ◌+◌, ◌/◌, ◌^◌, ◌≡◌, ◌≤◌}
use uhyve.Memory.{Memory, load}
use uhyve.Vm.Gdt.{create_gdt_entry}
use uhyve.Vm.GuestMem.{init_guest_mem}
use uhyve.Vm.GuestMem.Tables.{init_guest_mem_tables}
use uhyve.Linux.Vcpu.Setup.{KvmSegment, Sregs, Regs, setup_long_mode}

-- The flags of the descriptor that a segment register stands for, by the processor's manual.
abbrev pub descriptor_flags_of : KvmSegment → ℕ
descriptor_flags_of seg =
    seg.type_
    + 2 ^ 4 * seg.s
    + 2 ^ 5 * seg.dpl
    + 2 ^ 7 * seg.present
    + 2 ^ 13 * seg.l
    + 2 ^ 14 * seg.db
    + 2 ^ 15 * seg.g

-- Its descriptor; with granularity the limit counts pages.
abbrev pub descriptor_of : KvmSegment → ℕ
descriptor_of seg = create_gdt_entry (descriptor_flags_of seg) seg.base (seg.limit / 2 ^ 12)

-- The code segment that a CPU starts with is the descriptor at its selector in the table that booting
-- writes, and so are the segments DS, ES and SS, but for their D/B bit, which only the table sets, if
-- the first 0x13000 bytes of guest memory do not wrap around the address space. The descriptors lie within the table's limit, and paging starts at the tables of booting.
pub setup_long_mode-HoldsGdt :
    (entry_point : ℕ) (sregs : Sregs) (regs : Regs) (m : Memory) (vm : ℕ)
    → vm + 0x13000 ≤ 2 ^ 64
    → let s = (setup_long_mode entry_point sregs regs).0 in
      (m' : Memory) × (init_guest_mem m vm ≡ some m')
      × (load 8 m' (vm + (s.gdt_base + s.cs.selector)) ≡ descriptor_of s.cs)
      × (load 8 m' (vm + (s.gdt_base + s.ds.selector)) ≡ descriptor_of (record s.ds { db = 1 }))
      × (load 8 m' (vm + (s.gdt_base + s.es.selector)) ≡ descriptor_of (record s.es { db = 1 }))
      × (load 8 m' (vm + (s.gdt_base + s.ss.selector)) ≡ descriptor_of (record s.ss { db = 1 }))
      × (s.cs.selector + 7 ≤ s.gdt_limit)
      × (s.ds.selector + 7 ≤ s.gdt_limit)
      × (s.es.selector + 7 ≤ s.gdt_limit)
      × (s.ss.selector + 7 ≤ s.gdt_limit)
      × (load 8 m' (vm + s.cr3) ≡ 0x11003)
unfolding setup_long_mode create_gdt_entry
setup_long_mode-HoldsGdt entry_point sregs regs m vm room =
    let (m', boots, tables, gdt, _) = init_guest_mem_tables m vm room in
    (
      m',
      boots,
      gdt.code,
      gdt.stack,
      gdt.stack,
      gdt.stack,
      omega arith,
      omega arith,
      omega arith,
      omega arith,
      tables.pml4,
    )
