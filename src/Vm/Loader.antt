-- ===== src/Vm/Loader.antt =====
-- src/vm.rs, `load_kernel`: the kernel's segments, its relocations and the boot information in the
-- memory of the guest. The ELF parser is a package: a file comes parsed.
use uhyve.Consts.{boot_info_addr, kernel_stack_size, uhyve_uart_port}
use uhyve.Prelude.{
  Bool, List, Option, [], add64, drop, if◌then◌else◌, leb, length, ltb, mul64, none, not, replicate,
  some, sub64, take, ℕ, ◌&&◌, ◌+◌, ◌==◌, ◌||◌, ◌∷◌,
}
pub mod Segment
pub mod Content
mod Tests
use uhyve.Memory.{Memory, store, store_bytes}
use uhyve.Vm.BootInfo
use uhyve.Vm.BootInfo.{put, BootInfo, new}

-- What the source uses of a parsed file.
pub record ProgramHeader : Type 0 where
  pub p_type : ℕ
  pub p_offset : ℕ
  pub p_vaddr : ℕ
  pub p_filesz : ℕ
  pub p_memsz : ℕ

pub record Rela : Type 0 where
  pub r_type : ℕ
  pub r_offset : ℕ
  pub r_addend : Option ℕ

pub record Elf : Type 0 where
  pub has_libraries : Bool
  pub e_type : ℕ
  pub e_machine : ℕ
  pub entry : ℕ
  pub program_headers : List ProgramHeader
  pub dynrelas : List Rela

-- The values that the package goblin gives to the names of the ELF standard.
abbrev pub et_dyn : ℕ
et_dyn = 3

abbrev pub em_x86_64 : ℕ
em_x86_64 = 62

abbrev pub pt_load : ℕ
pt_load = 1

abbrev pub pt_tls : ℕ
pt_tls = 7

abbrev pub r_x86_64_relative : ℕ
r_x86_64_relative = 8

-- What the machine is asked for: its memory, its options, the time in seconds, and the frequency
-- of the processor as far as it could be detected.
pub record Setup : Type 0 where
  pub vm_mem : ℕ
  pub vm_mem_length : ℕ
  pub ip : Option (List ℕ)
  pub gateway : Option (List ℕ)
  pub mask : Option (List ℕ)
  pub verbose : Bool
  pub now_secs : ℕ
  pub cpu_mhz : ℕ

pub data LoadKernelError : Type 0 where
  io goblin insufficient_memory : LoadKernelError

-- The memory, and the fields that `set_offset`, `set_entry_point` and `set_boot_info` change.
pub record Guest : Type 0 where
  pub memory : Memory
  pub offset : ℕ
  pub entry_point : ℕ
  pub boot_info : ℕ

pub data Loading (A : Type 0) : Type 0 where
  loaded : A → Loading A
  refused : LoadKernelError → Loading A
  panic : Loading A

-- `slice[start..end]` of a slice of length `len` is in range.
abbrev pub in_range : (start end len : ℕ) → Bool
in_range start end len = leb start end && leb end len

-- The slots of the boot information that are written one by one.
abbrev pub boot_info_at : Setup → ℕ
boot_info_at setup = setup.vm_mem + boot_info_addr

module _ (setup : Setup) (buffer : List ℕ) (is_dyn : Bool) (start_address : ℕ) where
  -- `PT_LOAD`, with the size of the image so far
  unfoldable pub load_segment : ProgramHeader → Memory × ℕ → Loading (Memory × ℕ)
  load_segment ph (m, image_size) =
      let region_start = if is_dyn then add64 start_address ph.p_vaddr else ph.p_vaddr in
      let region_end = add64 region_start ph.p_filesz in
      let kernel_end = add64 ph.p_offset ph.p_filesz in
      let zero_end = add64 region_end (sub64 ph.p_memsz ph.p_filesz) in
      let copied = take ph.p_filesz (drop ph.p_offset buffer) in
      let m1 = store_bytes m (setup.vm_mem + region_start) copied in
      let m2 =
        store_bytes m1 (setup.vm_mem + region_end) (replicate (sub64 ph.p_memsz ph.p_filesz) 0) in
      let image_size' =
        if is_dyn then add64 ph.p_vaddr ph.p_memsz else add64 image_size ph.p_memsz in
      if ltb setup.vm_mem_length (add64 region_start ph.p_memsz)
      then refused insufficient_memory
      else if in_range region_start region_end setup.vm_mem_length
          && in_range ph.p_offset kernel_end (length buffer)
          && in_range region_end zero_end setup.vm_mem_length
      then loaded (store 8 m2 (boot_info_at setup + 24) image_size', image_size')
      else panic

  -- `PT_TLS`
  unfoldable pub set_tls : ProgramHeader → Memory → Memory
  set_tls ph m =
      let tls_start = if is_dyn then add64 start_address ph.p_vaddr else ph.p_vaddr in
      let m1 = store 8 m (boot_info_at setup + 32) tls_start in
      let m2 = store 8 m1 (boot_info_at setup + 40) ph.p_filesz in
      store 8 m2 (boot_info_at setup + 48) ph.p_memsz

  unfoldable pub load_header : ProgramHeader → Memory × ℕ → Loading (Memory × ℕ)
  unfolding load_segment set_tls
  load_header ph (m, image_size) =
      if ph.p_type == pt_load
      then load_segment ph (m, image_size)
      else if ph.p_type == pt_tls
      then loaded (set_tls ph m, image_size)
      else loaded (m, image_size)

  -- `try_for_each` over the program headers
  unfoldable pub load_headers : List ProgramHeader → Memory × ℕ → Loading (Memory × ℕ)
  unfolding load_header
  load_headers [] s = loaded s
  load_headers (ph ∷ phs) s = elim (load_header ph s) [
    | loaded s' ↦ load_headers phs s'
    | refused e ↦ refused e
    | panic ↦ panic
  ]

-- `rela.r_addend.unwrap_or(0)`
abbrev pub addend_of : Rela → ℕ
addend_of rela = elim rela.r_addend [ none ↦ 0 | some a ↦ a ]

-- The relocations; the place is not checked against the guest's memory.
unfoldable pub relocate : (vm_mem start_address : ℕ) → List Rela → Memory → Memory
relocate vm_mem start_address [] m = m
relocate vm_mem start_address (rela ∷ relas) m =
    let offset = add64 (add64 vm_mem start_address) rela.r_offset in
    let m' = store 8 m offset (add64 start_address (addend_of rela)) in
    relocate vm_mem start_address relas (if rela.r_type == r_x86_64_relative then m' else m)

-- An address of 4 octets that is forwarded to the kernel, if it is given.
abbrev pub forward : Memory → ℕ → Option (List ℕ) → Memory
forward m at none = m
forward m at (some octets) = store_bytes m at octets

-- The boot information before the segments are loaded.
unfoldable pub set_boot_info : Setup → ℕ → Memory → Memory
set_boot_info setup start_address m =
    let at = boot_info_at setup in
    let m1 = put m at BootInfo.new in
    let m2 =
      forward (forward (forward m1 (at + 136) setup.ip) (at + 140) setup.gateway) (at + 144)
        setup.mask in
    let m3 = store 8 (store 8 m2 (at + 8) start_address) (at + 16) setup.vm_mem_length in
    let m4 = store 4 (store 1 (store 4 m3 (at + 124) 1) (at + 135) 3) (at + 128) 0 in
    let m5 = store 2 m4 (at + 132) (if setup.verbose then uhyve_uart_port else 0) in
    let m6 = store 8 m5 (at + 56) (sub64 start_address kernel_stack_size) in
    let m7 = store 8 (store 8 m6 (at + 72) setup.vm_mem) (at + 80) (mul64 setup.now_secs 1000000) in
    store 4 m7 (at + 112) setup.cpu_mhz

-- `fs::read` and the parser can fail before.
unfoldable pub load_kernel : Setup → Option (List ℕ) → (List ℕ → Option Elf) → Guest → Loading Guest
unfolding set_boot_info load_headers relocate
load_kernel setup none parse g = refused io
load_kernel setup (some buffer) parse g = elim (parse buffer) [
  | none ↦ refused goblin
  | some elf ↦
      let is_dyn = elf.e_type == et_dyn in
      let start_address = if is_dyn then 0x400000 else 0x800000 in
      let entry = if is_dyn then add64 0x400000 elf.entry else elf.entry in
      let m1 = set_boot_info setup start_address g.memory in
      if elf.has_libraries || not (elf.e_machine == em_x86_64)
      then refused io
      else elim (load_headers setup buffer is_dyn start_address elf.program_headers (m1, 0)) [
        | refused e ↦ refused e
        | panic ↦ panic
        | loaded (m2, image_size) ↦ loaded (record {
          memory = relocate setup.vm_mem start_address elf.dynrelas m2;
          offset = start_address;
          entry_point = entry;
          boot_info = boot_info_at setup;
        })
      ]
]
