-- ===== src/Vm/Loader/Content.antt =====
-- What the guest finds of a segment that fits.
use uhyve.Prelude.{
  Bool, List, add64, arith, drop, false, get_or, if◌then◌else◌, length, length-drop, length-take,
  ltb, replicate, sub64, take, true, ℕ, ◌&&◌, ◌+◌, ◌-◌, ◌<◌, ◌^◌, ◌≡◌, ◌≤◌, ap, get_or-drop,
  get_or-take, inr, refl, suc, zero, ◌∙◌,
}
use uhyve.Memory.{Memory, load, store, store_bytes}
use uhyve.Memory.Laws.{Apart, store_outside, load-store}
use uhyve.Memory.Bytes.{store_bytes_inside}
use uhyve.Vm.Loader.{ProgramHeader, Setup, loaded, in_range, boot_info_at, load_segment}
use uhyve.Vm.Loader.Segment.{store_bytes_outside, length-replicate}

get_or-replicate : (n i : ℕ) → get_or (replicate {A = ℕ} n 0) i 0 ≡ 0
get_or-replicate zero i = refl
get_or-replicate (suc n) zero = refl
get_or-replicate (suc n) (suc i) = get_or-replicate n i

module _ (setup : Setup) (buffer : List ℕ) (is_dyn : Bool) (start_address : ℕ) where
  -- The file's bytes, then zeros up to the size in memory, and the size of the image so far.
  pub record IsLoaded (ph : ProgramHeader) (start n : ℕ) (m' : Memory) : Type 0 where
    pub file :
        (i : ℕ)
        → i < ph.p_filesz
        → m' (setup.vm_mem + start + i) ≡ get_or buffer (ph.p_offset + i) 0
    pub zeros : (i : ℕ) → ph.p_filesz ≤ i → i < ph.p_memsz → m' (setup.vm_mem + start + i) ≡ 0
    pub image_size :
        load 8 m' (boot_info_at setup + 24)
        ≡ (if is_dyn then add64 ph.p_vaddr ph.p_memsz else add64 n ph.p_memsz)

  -- A segment that fits the guest's memory, has at least its file's size there, lies in the file and
  -- apart from the boot information is
  -- loaded: the guest finds the file's bytes, zeros behind them, and the new size of the image.
  pub load_segment-IsLoaded :
      (ph : ProgramHeader) (start : ℕ) (m : Memory) (n : ℕ)
      → (if is_dyn then add64 start_address ph.p_vaddr else ph.p_vaddr) ≡ start
      → setup.vm_mem_length < 2 ^ 64
      → start + ph.p_memsz ≤ setup.vm_mem_length
      → ph.p_filesz ≤ ph.p_memsz
      → length buffer < 2 ^ 64
      → ph.p_offset + ph.p_filesz ≤ length buffer
      → Apart 0x9000 152 start ph.p_memsz
      → (m' : Memory) × (n' : ℕ) × (load_segment setup buffer is_dyn start_address ph (m, n)
          ≡ loaded (m', n'))
        × IsLoaded ph start n m'
  unfolding load_segment
  load_segment-IsLoaded ph start m n starts small room shorter file_small in_file away =
      let file_end : add64 start ph.p_filesz ≡ start + ph.p_filesz = omega arith in
      let rest : sub64 ph.p_memsz ph.p_filesz ≡ ph.p_memsz - ph.p_filesz = omega arith in
      let memory_end : add64 start ph.p_memsz ≡ start + ph.p_memsz = omega arith in
      let zero_end : add64 (start + ph.p_filesz) (ph.p_memsz - ph.p_filesz) ≡ start + ph.p_memsz =
        omega arith in
      let buffer_end : add64 ph.p_offset ph.p_filesz ≡ ph.p_offset + ph.p_filesz = omega arith in
      let fits : ltb setup.vm_mem_length (start + ph.p_memsz) ≡ false = ground arith in
      let ok : (in_range start (start + ph.p_filesz) setup.vm_mem_length
            && in_range ph.p_offset (ph.p_offset + ph.p_filesz) (length buffer)
            && in_range (start + ph.p_filesz) (start + ph.p_memsz) setup.vm_mem_length)
          ≡ true =
        ground arith in
      let size = if is_dyn then add64 ph.p_vaddr ph.p_memsz else add64 n ph.p_memsz in
      let bytes : List ℕ = take ph.p_filesz (drop ph.p_offset buffer) in
      let blank : List ℕ = replicate (ph.p_memsz - ph.p_filesz) 0 in
      let m1 : Memory = store_bytes m (setup.vm_mem + start) bytes in
      let m2 : Memory = store_bytes m1 (setup.vm_mem + (start + ph.p_filesz)) blank in
      let n_bytes : length bytes ≡ ph.p_filesz = omega (
        arith,
        length-take ph.p_filesz (drop ph.p_offset buffer),
        length-drop ph.p_offset buffer,
      ) in
      (
        store 8 m2 (boot_info_at setup + 24) size,
        size,
        rw (starts, memory_end, fits, file_end, rest, zero_end, buffer_end, ok) refl,
        record {
          file = λ i h.
              store_outside 8 m2 (boot_info_at setup + 24) size (setup.vm_mem + start + i)
                (ground arith)
              ∙ store_bytes_outside m1 (setup.vm_mem + (start + ph.p_filesz)) blank
                  (setup.vm_mem + start + i) (inr (omega arith))
              ∙ store_bytes_inside m (setup.vm_mem + start) bytes i (omega arith)
              ∙ get_or-take ph.p_filesz (drop ph.p_offset buffer) i h
              ∙ get_or-drop ph.p_offset buffer i;
          zeros = λ i low high.
              let here : setup.vm_mem + start + i
                  ≡ setup.vm_mem + (start + ph.p_filesz) + (i - ph.p_filesz) =
                omega arith in
              store_outside 8 m2 (boot_info_at setup + 24) size (setup.vm_mem + start + i)
                (ground arith)
              ∙ ap m2 here
              ∙ store_bytes_inside m1 (setup.vm_mem + (start + ph.p_filesz)) blank (i - ph.p_filesz)
                  (omega (arith, length-replicate (ph.p_memsz - ph.p_filesz) 0))
              ∙ get_or-replicate (ph.p_memsz - ph.p_filesz) (i - ph.p_filesz);
          image_size = load-store 8 m2 (boot_info_at setup + 24) size (ground arith);
        },
      )
