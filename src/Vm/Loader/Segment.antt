-- ===== src/Vm/Loader/Segment.antt =====
-- What loading a segment does to memory.
use uhyve.Prelude.{
  Bool, List, [], add64, ap, arith, drop, if◌then◌else◌, inl, inr, length, refl, replicate, sub64,
  suc, take, zero, ℕ, ◌+◌, ◌<◌, ◌^◌, ◌∷◌, ◌≡◌, ◌≤◌, ◌⊎◌, Bool-cases, ltb, true, ◌&&◌, leb, leb→le,
  length-take, sym, ◌∙◌, ◌==◌, and_true,
}
use uhyve.Memory.{Memory, store, store_bytes}
use uhyve.Memory.Laws.{Apart, store_outside}
use uhyve.Memory.Bytes.{store_bytes_below, store_bytes_above}
use uhyve.Vm.Loader.{
  ProgramHeader, Setup, loaded, refused, panic, in_range, boot_info_at, load_segment,
  LoadKernelError, insufficient_memory, Loading, load_header, load_headers, pt_load, pt_tls,
  set_tls,
}

-- The fields of a program header are words of 64 bits.
pub record IsHeader (ph : ProgramHeader) : Type 0 where
  pub offset : ph.p_offset < 2 ^ 64
  pub vaddr : ph.p_vaddr < 2 ^ 64
  pub filesz : ph.p_filesz < 2 ^ 64
  pub memsz : ph.p_memsz < 2 ^ 64

abbrev pub AreHeaders : List ProgramHeader → Type 0
AreHeaders [] = Unit {0}
AreHeaders (ph ∷ phs) = IsHeader ph × AreHeaders phs

pub store_bytes_outside :
    (m : Memory) (a : ℕ) (bytes : List ℕ) (q : ℕ)
    → Apart a (length bytes) q 1
    → store_bytes m a bytes q ≡ m q
store_bytes_outside m a bytes q (inl below) = store_bytes_above m a bytes q (omega arith)
store_bytes_outside m a bytes q (inr above) = store_bytes_below m a bytes q (omega arith)

pub length-replicate : (n v : ℕ) → length (replicate n v) ≡ n
length-replicate zero v = refl
length-replicate (suc n) v = ap suc (length-replicate n v)

in_range-le : (a b n : ℕ) → in_range a b n ≡ true → (a ≤ b) × (b ≤ n)
in_range-le a b n h =
    let (low, high) = and_true (leb a b) (leb b n) h in (leb→le a b low, leb→le b n high)

Loading-cases :
    {A : Type 0} (r : Loading A)
    → ((a : A) × (r ≡ loaded a)) ⊎ (r ≡ panic) ⊎ ((e : LoadKernelError) × (r ≡ refused e))
Loading-cases (loaded a) = inl (a, refl)
Loading-cases (refused e) = inr (inr (e, refl))
Loading-cases panic = inr (inl refl)

module _ (setup : Setup) (buffer : List ℕ) (is_dyn : Bool) (start_address : ℕ)
    (info_room : 0x9000 + 152 ≤ setup.vm_mem_length) (small : setup.vm_mem_length < 2 ^ 64)
    (starts : start_address < 2 ^ 64) where
  abbrev pub region_start : ProgramHeader → ℕ
  region_start ph = if is_dyn then add64 start_address ph.p_vaddr else ph.p_vaddr

  abbrev pub copied : ProgramHeader → List ℕ
  copied ph = take ph.p_filesz (drop ph.p_offset buffer)

  abbrev pub image_size_of : ProgramHeader → ℕ → ℕ
  image_size_of ph n = if is_dyn then add64 ph.p_vaddr ph.p_memsz else add64 n ph.p_memsz

  abbrev pub result : ProgramHeader → Memory → ℕ → Memory
  result ph m n =
      let region_end = add64 (region_start ph) ph.p_filesz in
      let m1 = store_bytes m (setup.vm_mem + region_start ph) (copied ph) in
      let m2 =
        store_bytes m1 (setup.vm_mem + region_end) (replicate (sub64 ph.p_memsz ph.p_filesz) 0) in
      store 8 m2 (boot_info_at setup + 24) (image_size_of ph n)

  -- The bounds that a segment has been checked against.
  abbrev Bounds : ProgramHeader → Type 0
  Bounds ph =
      let region_end = add64 (region_start ph) ph.p_filesz in
      let zero_end = add64 region_end (sub64 ph.p_memsz ph.p_filesz) in
      (region_start ph ≤ region_end)
      × (region_end ≤ setup.vm_mem_length)
      × (region_end ≤ zero_end)
      × (zero_end ≤ setup.vm_mem_length)

  abbrev pub checks : ProgramHeader → Bool
  checks ph =
      let region_end = add64 (region_start ph) ph.p_filesz in
      let zero_end = add64 region_end (sub64 ph.p_memsz ph.p_filesz) in
      in_range (region_start ph) region_end setup.vm_mem_length
      && in_range ph.p_offset (add64 ph.p_offset ph.p_filesz) (length buffer)
      && in_range region_end zero_end setup.vm_mem_length

  checks-Bounds : (ph : ProgramHeader) → checks ph ≡ true → Bounds ph
  checks-Bounds ph ok =
      let region_end = add64 (region_start ph) ph.p_filesz in
      let zero_end = add64 region_end (sub64 ph.p_memsz ph.p_filesz) in
      let first = in_range (region_start ph) region_end setup.vm_mem_length in
      let second = in_range ph.p_offset (add64 ph.p_offset ph.p_filesz) (length buffer) in
      let third = in_range region_end zero_end setup.vm_mem_length in
      let (most, last) = and_true (first && second) third ok in
      let (low, _) = and_true first second most in
      let (b1, b2) = in_range-le (region_start ph) region_end setup.vm_mem_length low in
      let (b3, b4) = in_range-le region_end zero_end setup.vm_mem_length last in (b1, b2, b3, b4)

  load_segment_cases :
      (ph : ProgramHeader) (m : Memory) (n : ℕ)
      → ((load_segment setup buffer is_dyn start_address ph (m, n)
            ≡ loaded (result ph m n, image_size_of ph n))
          × Bounds ph)
        ⊎ (load_segment setup buffer is_dyn start_address ph (m, n) ≡ panic)
        ⊎ ((e : LoadKernelError) × (load_segment setup buffer is_dyn start_address ph (m, n)
              ≡ refused e))
  unfolding load_segment
  load_segment_cases ph m n =
      elim (Bool-cases (ltb setup.vm_mem_length (add64 (region_start ph) ph.p_memsz))) [
        | inl over ↦ inr (inr (insufficient_memory, rw over refl))
        | inr fits ↦ elim (Bool-cases (checks ph)) [
          | inl ok ↦ inl (rw (fits, ok) refl, checks-Bounds ph ok)
          | inr bad ↦ inr (inl (rw (fits, bad) refl))
        ]
      ]

  region_start-lt : (ph : ProgramHeader) → IsHeader ph → region_start ph < 2 ^ 64
  region_start-lt ph v = ground (arith, v.vaddr)

  result_outside :
      (ph : ProgramHeader) (m : Memory) (n : ℕ) (q : ℕ)
      → IsHeader ph
      → Bounds ph
      → Apart setup.vm_mem setup.vm_mem_length q 1
      → result ph m n q ≡ m q
  result_outside ph m n q v (b1, b2, b3, b4) away =
      let start = region_start ph in
      let start_lt = region_start-lt ph v in
      let region_end = add64 start ph.p_filesz in
      let zeros : List ℕ = replicate (sub64 ph.p_memsz ph.p_filesz) 0 in
      let m1 : Memory = store_bytes m (setup.vm_mem + start) (copied ph) in
      let m2 : Memory = store_bytes m1 (setup.vm_mem + region_end) zeros in
      let n_zeros = length-replicate (sub64 ph.p_memsz ph.p_filesz) 0 in
      let n_copied = length-take ph.p_filesz (drop ph.p_offset buffer) in
      store_outside 8 m2 (boot_info_at setup + 24) (image_size_of ph n) q (ground arith)
      ∙ store_bytes_outside m1 (setup.vm_mem + region_end) zeros q
          (ground (arith, n_zeros, b3, b4, b2))
      ∙ store_bytes_outside m (setup.vm_mem + start) (copied ph) q
          (ground (arith, n_copied, start_lt, v.filesz, b1, b2))

  -- Loading a segment writes to the guest's memory only.
  load_segment_inside :
      (ph : ProgramHeader) (m : Memory) (n : ℕ) (m' : Memory) (n' : ℕ)
      → IsHeader ph
      → load_segment setup buffer is_dyn start_address ph (m, n) ≡ loaded (m', n')
      → (q : ℕ) → Apart setup.vm_mem setup.vm_mem_length q 1
      → m' q ≡ m q
  load_segment_inside ph m n m' n' v got q away = elim (load_segment_cases ph m n) [
    | inl (yes_, bounds) ↦
        let same : result ph m n ≡ m' = cc in
        ap (λ (x : Memory). x q) (sym same) ∙ result_outside ph m n q v bounds away
    | inr (inl panics) ↦ cc
    | inr (inr (e, refuses)) ↦ cc
  ]

  set_tls_inside :
      (ph : ProgramHeader) (m : Memory) (q : ℕ)
      → Apart setup.vm_mem setup.vm_mem_length q 1
      → set_tls setup buffer is_dyn start_address ph m q ≡ m q
  unfolding set_tls
  set_tls_inside ph m q away =
      let at = boot_info_at setup in
      let m1 = store 8 m (at + 32) (region_start ph) in
      let m2 = store 8 m1 (at + 40) ph.p_filesz in
      store_outside 8 m2 (at + 48) ph.p_memsz q (ground arith)
      ∙ store_outside 8 m1 (at + 40) ph.p_filesz q (ground arith)
      ∙ store_outside 8 m (at + 32) (region_start ph) q (ground arith)

  load_header_inside :
      (ph : ProgramHeader) (m : Memory) (n : ℕ) (m' : Memory) (n' : ℕ)
      → IsHeader ph
      → load_header setup buffer is_dyn start_address ph (m, n) ≡ loaded (m', n')
      → (q : ℕ) → Apart setup.vm_mem setup.vm_mem_length q 1
      → m' q ≡ m q
  unfolding load_header
  load_header_inside ph m n m' n' v got q away = elim (Bool-cases (ph.p_type == pt_load)) [
    | inl load_it ↦
        let segment : load_segment setup buffer is_dyn start_address ph (m, n) ≡ loaded (m', n') =
          let dispatch : load_header setup buffer is_dyn start_address ph (m, n)
              ≡ load_segment setup buffer is_dyn start_address ph (m, n) =
            rw load_it refl in
          sym dispatch ∙ got in
        load_segment_inside ph m n m' n' v segment q away
    | inr other ↦ elim (Bool-cases (ph.p_type == pt_tls)) [
      | inl tls ↦
          let same : set_tls setup buffer is_dyn start_address ph m ≡ m' =
            let dispatch : load_header setup buffer is_dyn start_address ph (m, n)
                ≡ loaded (set_tls setup buffer is_dyn start_address ph m, n) =
              rw (other, tls) refl in
            cc in
          ap (λ (x : Memory). x q) (sym same) ∙ set_tls_inside ph m q away
      | inr ignored ↦
          let same : m ≡ m' =
            let dispatch : load_header setup buffer is_dyn start_address ph (m, n) ≡ loaded (m, n) =
              rw (other, ignored) refl in
            cc in
          ap (λ (x : Memory). x q) (sym same)
    ]
  ]

  -- Whatever the program headers of a file say, in words of 64 bits, if the boot information lies in
  -- the guest's memory: if they are loaded without an error or a panic, no
  -- byte outside of the guest's memory has been written.
  pub load_headers_inside :
      (phs : List ProgramHeader) (m : Memory) (n : ℕ) {m' : Memory} {n' : ℕ}
      → AreHeaders phs
      → load_headers setup buffer is_dyn start_address phs (m, n) ≡ loaded (m', n')
      → (q : ℕ) → Apart setup.vm_mem setup.vm_mem_length q 1
      → m' q ≡ m q
  unfolding load_headers
  load_headers_inside [] m n {m'} v got q away =
      let same : m ≡ m' = cc in ap (λ (x : Memory). x q) (sym same)
  load_headers_inside (ph ∷ phs) m n {m'} {n'} v got q away =
      elim (Loading-cases (load_header setup buffer is_dyn start_address ph (m, n))) [
        | inl ((m1, n1), now) ↦
            let later : load_headers setup buffer is_dyn start_address phs (m1, n1)
                ≡ loaded (m', n') =
              let step : load_headers setup buffer is_dyn start_address (ph ∷ phs) (m, n)
                  ≡ load_headers setup buffer is_dyn start_address phs (m1, n1) =
                rw (load_headers, now) refl in
              sym step ∙ got in
            load_headers_inside phs m1 n1 v.1 later q away
            ∙ load_header_inside ph m n m1 n1 v.0 now q away
        | inr (inl panics) ↦
            let step : load_headers setup buffer is_dyn start_address (ph ∷ phs) (m, n) ≡ panic =
              rw (load_headers, panics) refl in
            absurd cc
        | inr (inr (e, refuses)) ↦
            let step : load_headers setup buffer is_dyn start_address (ph ∷ phs) (m, n)
                ≡ refused e =
              rw (load_headers, refuses) refl in
            absurd cc
      ]
