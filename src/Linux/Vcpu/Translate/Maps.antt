-- ===== src/Linux/Vcpu/Translate/Maps.antt =====
-- The four-level translation of the processor, and that `virt_to_phys` computes it.
use mathlib.Core.Path.{subst}
use uhyve.Prelude.{sym, ℕ, suc, ◌+◌, ◌-◌, ◌*◌, ◌/◌, ◌%◌, ◌^◌, ◌≤◌, ◌<◌, ◌≡◌, arith, ◌∙◌, add64}
use uhyve.Prelude.Bits.{bit_and_mask, bit_or_fields}
use uhyve.Consts.{boot_pml4}
use uhyve.Memory.{Memory, load}
use uhyve.Paging.Masks.{huge_bit, above_page, above_large, above_huge, below_nx}
use uhyve.Linux.Vcpu.Translate.{walk, virt_to_phys}

-- The lowest bit of the index into a table of level `l`, from 1 for a table of pages to 4.
abbrev pub index_bits : ℕ → ℕ
index_bits l = 9 * l + 3

module _ (m : Memory) (vm addr : ℕ) where
  -- `e` is the present entry for `addr` in the table of level `l` at guest address `t`; its
  -- address lies below 2 ^ 52, and its bits 52 to 62, which the processor ignores, are clear.
  pub record Entry (l t e : ℕ) : Type 0 where
    pub stored : load 8 m (vm + t + 8 * (addr / 2 ^ index_bits l % 512)) ≡ e
    pub present : e % 2 ≡ 1
    pub small : e % 2 ^ 63 < 2 ^ 52

  -- From the table of level `l` at `t` the address is translated to `r`: through a page of 4 KiB
  -- at level 1, of 2 MiB at level 2, of 1 GiB at level 3, or through a table of the level below.
  pub data Maps : (l t r : ℕ) → Type 0 where
    page :
        {l t r : ℕ} (e : ℕ)
        → Entry l t e
        → l ≡ 1
        → r ≡ e % 2 ^ 63 / 2 ^ 12 * 2 ^ 12 + addr % 2 ^ 12
        → Maps l t r
    large :
        {l t r : ℕ} (e : ℕ)
        → Entry l t e
        → l ≡ 2
        → e / 128 % 2 ≡ 1
        → r ≡ e % 2 ^ 63 / 2 ^ 21 * 2 ^ 21 + addr % 2 ^ 21
        → Maps l t r
    huge :
        {l t r : ℕ} (e : ℕ)
        → Entry l t e
        → l ≡ 3
        → e / 128 % 2 ≡ 1
        → r ≡ e % 2 ^ 63 / 2 ^ 30 * 2 ^ 30 + addr % 2 ^ 30
        → Maps l t r
    table :
        {l t r : ℕ} (e : ℕ)
        → Entry (suc l) t e
        → e / 128 % 2 ≡ 0
        → Maps l (e % 2 ^ 63 / 2 ^ 12 * 2 ^ 12) r
        → Maps (suc l) t r

module _ (m : Memory) (vm addr : ℕ) (room : vm + 2 ^ 53 ≤ 2 ^ 64) where
  -- The address that the loop reads at, in the form of the specification.
  entry_address :
      (l t : ℕ)
      → t < 2 ^ 52
      → add64 (add64 t vm) (8 * (addr / 2 ^ index_bits l % 512))
        ≡ vm + t + 8 * (addr / 2 ^ index_bits l % 512)
  entry_address l t h = omega arith

  walk-page :
      (t e entry : ℕ)
      → t < 2 ^ 52
      → Entry m vm addr 1 t e
      → walk 1 m vm addr (add64 t vm) 12 entry ≡ e % 2 ^ 63 / 2 ^ 12 * 2 ^ 12 + addr % 2 ^ 12
  unfolding walk
  walk-page t e entry h en = ground (
    arith,
    en.stored,
    entry_address 1 t h,
    bit_and_mask 9 (addr / 2 ^ 12),
    bit_and_mask 12 addr,
    below_nx e,
    huge_bit (e % 2 ^ 63),
    above_page (e % 2 ^ 63),
    bit_or_fields 12 (e % 2 ^ 63 / 2 ^ 12) (addr % 2 ^ 12),
  )

  walk-large :
      (t e entry : ℕ)
      → t < 2 ^ 52
      → Entry m vm addr 2 t e
      → e / 128 % 2 ≡ 1
      → walk 2 m vm addr (add64 t vm) 21 entry ≡ e % 2 ^ 63 / 2 ^ 21 * 2 ^ 21 + addr % 2 ^ 21
  unfolding walk
  walk-large t e entry h en big = ground (
    arith,
    en.stored,
    entry_address 2 t h,
    bit_and_mask 9 (addr / 2 ^ 21),
    bit_and_mask 21 addr,
    below_nx e,
    huge_bit (e % 2 ^ 63),
    above_large (e % 2 ^ 63),
    bit_or_fields 21 (e % 2 ^ 63 / 2 ^ 21) (addr % 2 ^ 21),
  )

  walk-huge :
      (t e entry : ℕ)
      → t < 2 ^ 52
      → Entry m vm addr 3 t e
      → e / 128 % 2 ≡ 1
      → walk 3 m vm addr (add64 t vm) 30 entry ≡ e % 2 ^ 63 / 2 ^ 30 * 2 ^ 30 + addr % 2 ^ 30
  unfolding walk
  walk-huge t e entry h en big = ground (
    arith,
    en.stored,
    entry_address 3 t h,
    bit_and_mask 9 (addr / 2 ^ 30),
    bit_and_mask 30 addr,
    below_nx e,
    huge_bit (e % 2 ^ 63),
    above_huge (e % 2 ^ 63),
    bit_or_fields 30 (e % 2 ^ 63 / 2 ^ 30) (addr % 2 ^ 30),
  )

  walk-table :
      (l t e entry : ℕ)
      → t < 2 ^ 52
      → Entry m vm addr (suc l) t e
      → e / 128 % 2 ≡ 0
      → walk (suc l) m vm addr (add64 t vm) (index_bits (suc l)) entry
        ≡ walk l m vm addr (add64 (e % 2 ^ 63 / 2 ^ 12 * 2 ^ 12) vm) (index_bits l) (e % 2 ^ 63)
  unfolding walk
  walk-table l t e entry h en small =
      let bits : index_bits (suc l) - 9 ≡ index_bits l = omega arith in
      ground (
        arith,
        bits,
        en.stored,
        entry_address (suc l) t h,
        bit_and_mask 9 (addr / 2 ^ index_bits (suc l)),
        below_nx e,
        huge_bit (e % 2 ^ 63),
        above_page (e % 2 ^ 63),
      )

  -- A fact at a numeral level is one at a level equal to it.
  at_level :
      {l k t e v : ℕ} (entry : ℕ)
      → Entry m vm addr l t e
      → l ≡ k
      → (Entry m vm addr k t e → walk k m vm addr (add64 t vm) (index_bits k) entry ≡ v)
      → walk l m vm addr (add64 t vm) (index_bits l) entry ≡ v
  at_level {l} {t} {e} {v} entry en eq h =
      subst
        (λ (k : ℕ). Entry m vm addr k t e → walk k m vm addr (add64 t vm) (index_bits k) entry ≡ v)
        (sym eq) h en

  walk-Maps :
      {l t r : ℕ} (entry : ℕ)
      → t < 2 ^ 52
      → Maps m vm addr l t r
      → walk l m vm addr (add64 t vm) (index_bits l) entry ≡ r
  walk-Maps {t} entry h (page e en one eq) =
      at_level entry en one (λ h'. walk-page t e entry h h') ∙ sym eq
  walk-Maps {t} entry h (large e en two big eq) =
      at_level entry en two (λ h'. walk-large t e entry h h' big) ∙ sym eq
  walk-Maps {t} entry h (huge e en three big eq) =
      at_level entry en three (λ h'. walk-huge t e entry h h' big) ∙ sym eq
  walk-Maps {t} entry h (table {l} e en small rest) =
      walk-table l t e entry h en small ∙ walk-Maps (e % 2 ^ 63) (ground (arith, en.small)) rest

  -- Where the tables translate an address by the processor's rules, through entries whose bits 52 to 62
  -- are clear, `virt_to_phys` gives that translation, if 2 ^ 53 bytes of addresses follow the start of
  -- guest memory. The processor ignores those bits; `virt_to_phys` does not.
  pub virt_to_phys-Maps : {r : ℕ} → Maps m vm addr 4 boot_pml4 r → virt_to_phys m vm addr ≡ r
  unfolding virt_to_phys
  virt_to_phys-Maps h = walk-Maps 0 (omega arith) h
