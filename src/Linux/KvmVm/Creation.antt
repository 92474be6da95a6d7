-- ===== src/Linux/KvmVm/Creation.antt =====
-- What the creation of a machine leaves behind.
use uhyve.Vm.GuestMem.Tables.{init_guest_mem_tables}
use uhyve.Linux.KvmVm.Regions.{host_of, host_of-memory_regions, in_gap}
use uhyve.Consts.{boot_pml4}
use uhyve.Linux.Vcpu.Translate.{host_address}
use uhyve.Vm.GuestMem.{init_guest_mem}
use uhyve.Memory.{Memory, load}
use uhyve.Prelude.{
  List, Option, [], arith, false, refl, some, true, ℕ, ◌+◌, ◌^◌, ◌∷◌, ◌≡◌, ◌≤◌, Option-cases, add64,
  inl, inr, none, not, ◌==◌, ◌||◌, ap, if◌then◌else◌, ltb, ◌&&◌, ◌∙◌, ◌≢◌, ◌⊎◌,
}
use uhyve.Linux.KvmVm.{
  new_device, sharedqueue_start, Kvm, Region, set_regions, parse_addr, new_memory, x2apic_api,
  tsc_deadline_timer, irqfd, x86_disable_exits, MmapMemory, UhyveVm, memory_regions, new,
  cpu_online,
}
use uhyve.Prelude.Attempt.{◌>>=◌, ◌>>◌, expect, unwrap, makes, is_none, crashes}
use uhyve.Vm.Parameter.{Parameter}

-- The calls succeed as the source needs it: the memory is mapped below the end of the host's
-- addresses, the addresses parse, and the two capabilities that cannot be enabled are refused.
pub record IsReady (kvm : Kvm) (specs : Parameter) : Type 0 where
  pub ip : Option ℕ
  pub parses_ip : parse_addr kvm specs.ip ≡ makes ip
  pub gateway : Option ℕ
  pub parses_gateway : parse_addr kvm specs.gateway ≡ makes gateway
  pub mask : Option ℕ
  pub parses_mask : parse_addr kvm specs.mask ≡ makes mask
  pub creates : kvm.create_vm ≡ true
  pub host : ℕ
  pub maps : kvm.mmap specs.mem_size ≡ some host
  pub room : host + specs.mem_size ≤ 2 ^ 64
  pub advises_mergeable : kvm.madvise_mergeable ≡ true
  pub advises_hugepage : kvm.madvise_hugepage ≡ true
  pub takes_region : (r : Region) → kvm.set_user_memory_region r ≡ true
  pub creates_chip : kvm.create_irq_chip ≡ true
  pub enables_x2apic : kvm.enable_cap x2apic_api ≡ true
  pub refuses_tsc : kvm.enable_cap tsc_deadline_timer ≡ false
  pub refuses_irqfd : kvm.enable_cap irqfd ≡ false
  pub disables_exits : kvm.enable_cap x86_disable_exits ≡ true
  pub makes_event : kvm.event_fd ≡ true
  pub registers : kvm.register_irqfd ≡ true
  pub starts_network : (nic : List ℕ) (start : ℕ) → kvm.new_network nic start ≡ true

set_regions_lem :
    (kvm : Kvm) (rs : List Region)
    → ((r : Region) → kvm.set_user_memory_region r ≡ true)
    → set_regions kvm rs ≡ makes tt
unfolding set_regions
set_regions_lem kvm [] takes = refl
set_regions_lem kvm (r ∷ rs) takes = rw (takes r) (set_regions_lem kvm rs takes)

new_memory_lem :
    (kvm : Kvm) (specs : Parameter) (ready : IsReady kvm specs)
    → new_memory kvm 0 specs.mem_size 0 specs.hugepage specs.mergeable
      ≡ makes (record {
        flags = 0;
        memory_size = specs.mem_size;
        guest_address = 0;
        host_address = ready.host;
      })
unfolding new_memory
new_memory_lem kvm specs ready =
    rw (ready.maps) (ground (arith, ready.advises_mergeable, ready.advises_hugepage))

module _ (kvm : Kvm) (specs : Parameter) (ready : IsReady kvm specs) where
  abbrev memory : MmapMemory
  memory = record {
    flags = 0;
    memory_size = specs.mem_size;
    guest_address = 0;
    host_address = ready.host;
  }

  abbrev regions : List Region
  regions = memory_regions memory specs.mem_size

  abbrev created : UhyveVm
  created = record {
    offset = 0;
    entry_point = 0;
    mem = memory;
    num_cpus = specs.num_cpus;
    boot_info = none;
    verbose = specs.verbose;
    ip = ready.ip;
    gateway = ready.gateway;
    mask = ready.mask;
    uhyve_device = not (is_none specs.nic);
    gdb_port = specs.gdbport;
  }

  new_device_lem : new_device kvm specs.nic memory ≡ makes (not (is_none specs.nic))
  new_device_lem = elim (Option-cases specs.nic) [
    | inl without ↦ rw without refl
    | inr (nic, with_nic) ↦
        rw with_nic (rw (ready.starts_network nic (add64 ready.host sharedqueue_start)) refl)
  ]

  -- The run of `new`, up to the test of the debugger's port and the boot tables.
  new-steps :
      (m : Memory)
      → new kvm specs m ≡ (
          expect (is_none specs.gdbport || (specs.num_cpus == 1))
          >> (unwrap (init_guest_mem m ready.host) >>= λ m'. makes (created, regions, m')))
  unfolding new
  new-steps m =
      rw
        (
          ready.parses_ip,
          ready.parses_gateway,
          ready.parses_mask,
          ready.creates,
          new_memory_lem kvm specs ready,
          set_regions_lem kvm regions ready.takes_region,
          ready.creates_chip,
          ready.enables_x2apic,
          ready.refuses_tsc,
          ready.refuses_irqfd,
          ready.disables_exits,
          ready.makes_event,
          ready.registers,
          new_device_lem,
        )
        refl

  alone_lem :
      (specs.gdbport ≡ none) ⊎ (specs.num_cpus ≡ 1)
      → (is_none specs.gdbport || (specs.num_cpus == 1)) ≡ true
  alone_lem (inl without) = rw without refl
  alone_lem (inr single) = ground arith

  -- On a host that grants what the source needs, creating a machine of 0x13000 bytes or more, with one
  -- CPU or without a debugger, neither fails nor panics. No CPU is online; KVM finds each address of
  -- guest memory outside of the gap where the hypervisor does, and at the guest's address of the
  -- page tables it finds the entry that leads to the tables of booting.
  pub new_boots :
      (m : Memory)
      → 0x1_3000 ≤ specs.mem_size
      → (specs.gdbport ≡ none) ⊎ (specs.num_cpus ≡ 1)
      → (vm : UhyveVm) × (rs : List Region) × (m' : Memory) × (root : ℕ) × (new kvm specs m
          ≡ makes (vm, rs, m'))
        × (vm.mem.memory_size ≡ specs.mem_size)
        × (cpu_online vm m' ≡ 0)
        × ((gpa : ℕ)
            → host_of rs gpa ≡ (
                if ltb gpa specs.mem_size && not (in_gap gpa)
                then some (host_address vm.mem.host_address gpa)
                else none))
        × (host_of rs boot_pml4 ≡ some root)
        × (load 8 m' root ≡ 0x1_1003)
  unfolding cpu_online host_address
  new_boots m size alone =
      let host = ready.host in
      let room = ready.room in
      let (m', boots, tables, _, _) = init_guest_mem_tables m host (omega (arith, room)) in
      let test : (is_none specs.gdbport || (specs.num_cpus == 1)) ≡ true = alone_lem alone in
      let found = host_of-memory_regions memory specs.mem_size in
      let inside : (ltb 0x1_0000 specs.mem_size && not (in_gap 0x1_0000)) ≡ true = ground arith in
      let at : add64 0x1_0000 host ≡ host + 0x1_0000 = omega (arith, room) in
      (
        created,
        regions,
        m',
        host + 0x1_0000,
        new-steps m ∙ rw (test, boots) refl,
        refl,
        refl,
        λ gpa. found gpa refl,
        found 0x1_0000 refl ∙ rw inside (ap some at),
        tables.pml4,
      )

  -- A debugger is for machines with one CPU: with another number of CPUs it is a panic.
  new_gdbport :
      (m : Memory) (port : ℕ)
      → specs.gdbport ≡ some port
      → specs.num_cpus ≢ 1
      → new kvm specs m ≡ crashes
  new_gdbport m port debugged several =
      let test : (specs.num_cpus == 1) ≡ false = ground arith in
      new-steps m ∙ rw (debugged, test) refl
