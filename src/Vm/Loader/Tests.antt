-- ===== src/Vm/Loader/Tests.antt =====
-- The loader of vm.rs on a concrete file.
use uhyve.Vm.Loader.Segment.{AreHeaders, load_headers_inside}
use uhyve.Vm.Loader.Content.{IsLoaded, load_segment-IsLoaded}
use uhyve.Prelude.{List, [], arith, false, inl, none, refl, true, ℕ, ◌∷◌, ◌≡◌, inr}
use uhyve.Memory.{Memory, store, store_bytes}
use uhyve.Vm.Loader.{ProgramHeader, Setup, loaded, load_segment, load_headers, load_header}

-- 16 MiB of guest memory at 0x7000000, and a file of four bytes.
abbrev setup : Setup
setup = record {
  vm_mem = 0x700_0000;
  vm_mem_length = 0x100_0000;
  ip = none;
  gateway = none;
  mask = none;
  verbose = true;
  now_secs = 1;
  cpu_mhz = 2000;
}

abbrev file : List ℕ
file = 10 ∷ 11 ∷ 12 ∷ 13 ∷ []

-- The last three bytes of the file at 0x800000, and five zeros.
abbrev header : ProgramHeader
header = record { p_type = 1; p_offset = 1; p_vaddr = 0x80_0000; p_filesz = 3; p_memsz = 8 }

load_segment-IsLoaded_example :
    (m' : Memory) × (n' : ℕ) × (load_segment setup file false 0x80_0000 header ((λ _. 0), 0)
      ≡ loaded (m', n'))
    × IsLoaded setup file false 0x80_0000 header 0x80_0000 0 m'
load_segment-IsLoaded_example =
    load_segment-IsLoaded setup file false 0x80_0000 header 0x80_0000 (λ _. 0) 0 refl (omega arith)
      (omega arith) (omega arith) (omega arith) (omega arith) (inl (omega arith))

abbrev ignored : ProgramHeader
ignored = record { p_type = 6; p_offset = 0; p_vaddr = 0; p_filesz = 9; p_memsz = 9 }

abbrev headers : AreHeaders (ignored ∷ header ∷ [])
headers = (
  record { offset = omega arith; vaddr = omega arith; filesz = omega arith; memsz = omega arith },
  (
    record { offset = omega arith; vaddr = omega arith; filesz = omega arith; memsz = omega arith },
    tt,
  ),
)

abbrev loaded_memory : Memory
loaded_memory =
    store 8
      (store_bytes (store_bytes (λ _. 0) 0x780_0000 (11 ∷ 12 ∷ 13 ∷ [])) 0x780_0003
        (0 ∷ 0 ∷ 0 ∷ 0 ∷ 0 ∷ []))
      0x700_9018 8

headers_loaded :
    load_headers setup file false 0x80_0000 (ignored ∷ header ∷ []) ((λ _. 0), 0)
    ≡ loaded (loaded_memory, 8)
unfolding load_headers load_header load_segment
headers_loaded = refl

load_headers_inside_example : loaded_memory 5 ≡ 0
load_headers_inside_example =
    load_headers_inside setup file false 0x80_0000 (omega arith) (omega arith) (omega arith)
      (ignored ∷ header ∷ []) (λ _. 0) 0 headers headers_loaded 5 (inr (omega arith))
