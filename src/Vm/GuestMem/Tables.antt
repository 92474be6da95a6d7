-- ===== src/Vm/GuestMem/Tables.antt =====
-- What the tables hold after `init_guest_mem`.
use uhyve.Prelude.{
  ap₂, ℕ, zero, suc, ◌+◌, ◌*◌, ◌^◌, ◌≤◌, ◌<◌, ◌≡◌, refl, arith, some, bit_or, add64, inr, ◌∙◌,
}
use uhyve.Prelude.Bits.{bit_or_fields}
use uhyve.Consts.{boot_gdt, boot_pml4, boot_pdpte, boot_pde}
use uhyve.Memory.{Memory, load, store}
use uhyve.Memory.Laws.{Apart, load-store, load-store-Apart}
use uhyve.Paging.{set, present, writable, huge_page, large_page_size}
use uhyve.Vm.Gdt.{create_gdt_entry}
use uhyve.Vm.GuestMem.{set_entry, map_pages, init_gdt, init_guest_mem}

-- One round of the loop never panics, and stores the entry of page `i`.
map_page :
    (m : Memory) (i pde : ℕ)
    → set_entry m pde i (i * large_page_size) (bit_or (bit_or present writable) huge_page)
      ≡ some (store 8 m (add64 pde (8 * i)) (i * 2 ^ 21 + 131))
unfolding set_entry set
map_page m i pde = ground (arith, bit_or_fields 21 i 131)

-- The loop maps the pages from `i` on, and leaves every word apart from their entries alone.
record Mapped (left i : ℕ) (m : Memory) (pde : ℕ) : Type 0 where
  out : Memory
  returns : map_pages left i m pde ≡ some out
  inside : (j : ℕ) → i ≤ j → j < i + left → load 8 out (pde + 8 * j) ≡ j * 2 ^ 21 + 131
  outside : (b : ℕ) → Apart (pde + 8 * i) (8 * left) b 8 → load 8 out b ≡ load 8 m b

map_pages-Mapped :
    (left i : ℕ) (m : Memory) (pde : ℕ)
    → i + left ≤ 512
    → pde + 0x1000 ≤ 2 ^ 64
    → Mapped left i m pde
unfolding map_pages
map_pages-Mapped zero i m pde h room = record {
  out = m;
  returns = refl;
  inside = λ j p q. absurd (omega arith);
  outside = λ b a. refl;
}
map_pages-Mapped (suc left) i m pde h room =
    let v = i * 2 ^ 21 + 131 in
    let m' = store 8 m (add64 pde (8 * i)) v in
    let at : add64 pde (8 * i) ≡ pde + 8 * i = omega arith in
    let rest = map_pages-Mapped left (i + 1) m' pde (omega arith) room in
    record {
      out = rest.out;
      returns = rw map_page rest.returns;
      inside = λ j p q.
          ground
            (arith, rest.inside j, rest.outside (pde + 8 * j), load-store 8 m (pde + 8 * i) v, at);
      outside = λ b a. ground (arith, rest.outside b, load-store-Apart 8 8 m (pde + 8 * i) v b, at);
    }

-- The memory after the three descriptors and the three upper entries.
abbrev upper : Memory → ℕ → Memory
upper m mem =
    let m0 = init_gdt m (add64 mem boot_gdt) in
    let m1 = store 8 m0 (add64 (add64 mem boot_pml4) (8 * 0)) 0x11003 in
    let m2 = store 8 m1 (add64 (add64 mem boot_pml4) (8 * 511)) 0x10003 in
    store 8 m2 (add64 (add64 mem boot_pdpte) (8 * 0)) 0x12003

init_guest_mem-upper :
    (m : Memory) (mem : ℕ)
    → init_guest_mem m mem ≡ map_pages 512 0 (upper m mem) (add64 mem boot_pde)
unfolding init_guest_mem set
init_guest_mem-upper m mem = refl

-- What the processor finds in the memory at `mem`: one chain of tables that maps the first GiB.
pub record HoldsTables (m : Memory) (mem : ℕ) : Type 0 where
  pub pml4 : load 8 m (mem + boot_pml4) ≡ 0x11003
  pub recursive : load 8 m (mem + (boot_pml4 + 8 * 511)) ≡ 0x10003
  pub pdpte : load 8 m (mem + boot_pdpte) ≡ 0x12003
  pub pde : (j : ℕ) → j < 512 → load 8 m (mem + boot_pde + 8 * j) ≡ j * 2 ^ 21 + 131

pub record HoldsGdt (m : Memory) (mem : ℕ) : Type 0 where
  pub null : load 8 m (mem + boot_gdt) ≡ 0
  pub code : load 8 m (mem + (boot_gdt + 8)) ≡ 0x00af_9b00_0000_ffff
  pub stack : load 8 m (mem + (boot_gdt + 16)) ≡ 0x00cf_9300_0000_ffff

-- A word that meets none of the words that booting writes.
pub record Elsewhere (mem b : ℕ) : Type 0 where
  pub gdt : Apart (mem + boot_gdt) 24 b 8
  pub pml4 : Apart (mem + boot_pml4) 8 b 8
  pub recursive : Apart (mem + (boot_pml4 + 8 * 511)) 8 b 8
  pub pdpte : Apart (mem + boot_pdpte) 8 b 8
  pub pde : Apart (mem + boot_pde) 4096 b 8

-- The six words that are stored before the loop, at their addresses.
module _ (m : Memory) (mem : ℕ) where
  abbrev s1 : Memory
  s1 = store 8 m (mem + 0x1000) 0

  abbrev s2 : Memory
  s2 = store 8 s1 (mem + 0x1008) 0x00af_9b00_0000_ffff

  abbrev s3 : Memory
  s3 = store 8 s2 (mem + 0x1010) 0x00cf_9300_0000_ffff

  abbrev s4 : Memory
  s4 = store 8 s3 (mem + 0x10000) 0x11003

  abbrev s5 : Memory
  s5 = store 8 s4 (mem + 0x10ff8) 0x10003

  abbrev s6 : Memory
  s6 = store 8 s5 (mem + 0x11000) 0x12003

  upper-s6 : mem + 0x13000 ≤ 2 ^ 64 → upper m mem ≡ s6
  unfolding init_gdt create_gdt_entry
  upper-s6 room =
      let a1 : add64 mem boot_gdt ≡ mem + 0x1000 = omega arith in
      let a2 : add64 (mem + 0x1000) 8 ≡ mem + 0x1008 = omega arith in
      let a3 : add64 (mem + 0x1000) (2 * 8) ≡ mem + 0x1010 = omega arith in
      let a4 : add64 (add64 mem boot_pml4) (8 * 0) ≡ mem + 0x10000 = omega arith in
      let a5 : add64 (add64 mem boot_pml4) (8 * 511) ≡ mem + 0x10ff8 = omega arith in
      let a6 : add64 (add64 mem boot_pdpte) (8 * 0) ≡ mem + 0x11000 = omega arith in ground arith

  -- A word is read back behind all later stores that are apart from it.
  behind3 :
      (b : ℕ)
      → Apart (mem + 0x10000) 8 b 8
      → Apart (mem + 0x10ff8) 8 b 8
      → Apart (mem + 0x11000) 8 b 8
      → load 8 s6 b ≡ load 8 s3 b
  behind3 b p q r =
      load-store-Apart 8 8 s5 (mem + 0x11000) 0x12003 b r
      ∙ load-store-Apart 8 8 s4 (mem + 0x10ff8) 0x10003 b q
      ∙ load-store-Apart 8 8 s3 (mem + 0x10000) 0x11003 b p

  s6-gdt :
      (load 8 s6 (mem + 0x1000) ≡ 0)
      × (load 8 s6 (mem + 0x1008) ≡ 0x00af_9b00_0000_ffff)
      × (load 8 s6 (mem + 0x1010) ≡ 0x00cf_9300_0000_ffff)
  s6-gdt = (
    behind3 _ (inr (omega arith)) (inr (omega arith)) (inr (omega arith))
        ∙ load-store-Apart 8 8 s2 (mem + 0x1010) _ _ (inr (omega arith))
        ∙ load-store-Apart 8 8 s1 (mem + 0x1008) _ _ (inr (omega arith))
        ∙ load-store 8 m (mem + 0x1000) 0 (omega arith),
    behind3 _ (inr (omega arith)) (inr (omega arith)) (inr (omega arith))
        ∙ load-store-Apart 8 8 s2 (mem + 0x1010) _ _ (inr (omega arith))
        ∙ load-store 8 s1 (mem + 0x1008) _ (omega arith),
    behind3 _ (inr (omega arith)) (inr (omega arith)) (inr (omega arith))
        ∙ load-store 8 s2 (mem + 0x1010) _ (omega arith),
  )

  s6-upper :
      (load 8 s6 (mem + 0x10000) ≡ 0x11003)
      × (load 8 s6 (mem + 0x10ff8) ≡ 0x10003)
      × (load 8 s6 (mem + 0x11000) ≡ 0x12003)
  s6-upper = (
    load-store-Apart 8 8 s5 (mem + 0x11000) _ _ (inr (omega arith))
        ∙ load-store-Apart 8 8 s4 (mem + 0x10ff8) _ _ (inr (omega arith))
        ∙ load-store 8 s3 (mem + 0x10000) _ (omega arith),
    load-store-Apart 8 8 s5 (mem + 0x11000) _ _ (inr (omega arith))
        ∙ load-store 8 s4 (mem + 0x10ff8) _ (omega arith),
    load-store 8 s5 (mem + 0x11000) _ (omega arith),
  )

  s6-Elsewhere : (b : ℕ) → Elsewhere mem b → load 8 s6 b ≡ load 8 m b
  s6-Elsewhere b e =
      behind3 b (ground (arith, e.pml4)) (ground (arith, e.recursive)) (ground (arith, e.pdpte))
      ∙ load-store-Apart 8 8 s2 (mem + 0x1010) _ b (ground (arith, e.gdt))
      ∙ load-store-Apart 8 8 s1 (mem + 0x1008) _ b (ground (arith, e.gdt))
      ∙ load-store-Apart 8 8 m (mem + 0x1000) _ b (ground (arith, e.gdt))

-- If the first 0x13000 bytes of guest memory do not wrap around the address space, booting does not
-- panic: the tables map the first GiB by 512 large pages and the tables through their own last entry,
-- the three descriptors are in place, and no word apart from these 518 words is changed.
pub init_guest_mem_tables :
    (m : Memory) (mem : ℕ)
    → mem + 0x13000 ≤ 2 ^ 64
    → (m' : Memory) × (init_guest_mem m mem ≡ some m')
      × HoldsTables m' mem
      × HoldsGdt m' mem
      × ((b : ℕ) → Elsewhere mem b → load 8 m' b ≡ load 8 m b)
init_guest_mem_tables m mem room =
    let pde : add64 mem boot_pde ≡ mem + 0x12000 = omega arith in
    let done = map_pages-Mapped 512 0 (s6 m mem) (mem + 0x12000) (omega arith) (omega arith) in
    let low = λ (b : ℕ) (h : b + 8 ≤ mem + 0x12000). done.outside b (inr (omega arith)) in
    (
      done.out,
      init_guest_mem-upper m mem ∙ ap₂ (map_pages 512 0) (upper-s6 m mem room) pde ∙ done.returns,
      record {
        pml4 = low _ (omega arith) ∙ (s6-upper m mem).0;
        recursive = low _ (omega arith) ∙ (s6-upper m mem).1;
        pdpte = low _ (omega arith) ∙ (s6-upper m mem).2;
        pde = λ j h. done.inside j (omega arith) (omega arith);
      },
      record {
        null = low _ (omega arith) ∙ (s6-gdt m mem).0;
        code = low _ (omega arith) ∙ (s6-gdt m mem).1;
        stack = low _ (omega arith) ∙ (s6-gdt m mem).2;
      },
      λ b e. done.outside b (ground (arith, e.pde)) ∙ s6-Elsewhere m mem b e,
    )
