-- ===== src/Vm/BootInfo.antt =====
-- src/vm.rs, `BootInfo`: what the hypervisor tells the kernel, at its place in guest memory. The
-- fields lie as C lays them out.
use uhyve.Prelude.{List, [], ℕ, ◌+◌, ◌-◌, ◌^◌, ◌∷◌}
use uhyve.Memory.{Memory, store, store_bytes}

-- Addresses of 4 octets are lists of bytes.
pub record BootInfo : Type 0 where
  pub magic_number : ℕ
  pub version : ℕ
  pub base : ℕ
  pub limit : ℕ
  pub image_size : ℕ
  pub tls_start : ℕ
  pub tls_filesz : ℕ
  pub tls_memsz : ℕ
  pub current_stack_address : ℕ
  pub current_percore_address : ℕ
  pub host_logical_addr : ℕ
  pub boot_gtod : ℕ
  pub mb_info : ℕ
  pub cmdline : ℕ
  pub cmdsize : ℕ
  pub cpu_freq : ℕ
  pub boot_processor : ℕ
  pub cpu_online : ℕ
  pub possible_cpus : ℕ
  pub current_boot_id : ℕ
  pub uartport : ℕ
  pub single_kernel : ℕ
  pub uhyve : ℕ
  pub hcip : List ℕ
  pub hcgateway : List ℕ
  pub hcmask : List ℕ

unfoldable pub new : BootInfo
new = record {
  magic_number = 0xc0de_cafe;
  version = 1;
  base = 0;
  limit = 0;
  image_size = 0;
  tls_start = 0;
  tls_filesz = 0;
  tls_memsz = 0;
  current_stack_address = 0;
  current_percore_address = 0;
  host_logical_addr = 0;
  boot_gtod = 0;
  mb_info = 0;
  cmdline = 0;
  cmdsize = 0;
  cpu_freq = 0;
  boot_processor = 2 ^ 32 - 1;
  cpu_online = 0;
  possible_cpus = 0;
  current_boot_id = 0;
  uartport = 0;
  single_kernel = 1;
  uhyve = 0;
  hcip = 255 ∷ 255 ∷ 255 ∷ 255 ∷ [];
  hcgateway = 255 ∷ 255 ∷ 255 ∷ 255 ∷ [];
  hcmask = 255 ∷ 255 ∷ 255 ∷ 0 ∷ [];
}

-- Values of `n` bytes each, one after the other.
abbrev pub store_all : ℕ → Memory → ℕ → List ℕ → Memory
store_all n m at [] = m
store_all n m at (v ∷ vs) = store_all n (store n m at v) (at + n) vs

-- The structure as a whole; it takes 148 bytes.
unfoldable pub put : Memory → ℕ → BootInfo → Memory
put m at b =
    let words = store_all 4 m at (b.magic_number ∷ b.version ∷ []) in
    let longs = store_all 8 words (at + 8) (
      b.base ∷ b.limit ∷ b.image_size ∷ b.tls_start ∷ b.tls_filesz ∷ b.tls_memsz
      ∷ b.current_stack_address ∷ b.current_percore_address ∷ b.host_logical_addr ∷ b.boot_gtod
      ∷ b.mb_info ∷ b.cmdline ∷ b.cmdsize ∷ []) in
    let more =
      store_all 4 longs (at + 112)
        (b.cpu_freq ∷ b.boot_processor ∷ b.cpu_online ∷ b.possible_cpus ∷ b.current_boot_id ∷ []) in
    let port = store 2 more (at + 132) b.uartport in
    let flags = store_all 1 port (at + 134) (b.single_kernel ∷ b.uhyve ∷ []) in
    store_bytes (store_bytes (store_bytes flags (at + 136) b.hcip) (at + 140) b.hcgateway)
      (at + 144) b.hcmask
