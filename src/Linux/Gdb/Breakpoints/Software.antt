-- ===== src/Linux/Gdb/Breakpoints/Software.antt =====
-- Setting and removing a software breakpoint.
use uhyve.Prelude.{
  ℕ, zero, suc, ◌+◌, ◌≤◌, ◌<◌, ◌≡◌, refl, ◌∙◌, arith, true, false, none, some, List, ◌∷◌, get_or,
  replicate, length-replicate,
}
use uhyve.Memory.{load_bytes, store_bytes}
use uhyve.Memory.Bytes.{
  store_bytes_below, store_bytes_above, store_bytes_inside, length-load_bytes, store_bytes_restore,
}
use uhyve.Linux.Gdb.Target.{SwBreakpoint, GdbUhyve, memory}
use uhyve.Linux.Gdb.Breakpoints.{opcode, same_key, lookup, add_sw_breakpoint, remove_sw_breakpoint}

abbrev pub key : ℕ → ℕ → SwBreakpoint
key addr kind = record { addr = addr; kind = kind }

abbrev pub place : GdbUhyve → ℕ → ℕ
place g addr = memory g.memory g.vm_start addr

get_or-replicate : (n v i : ℕ) → i < n → get_or (replicate n v) i 0 ≡ v
get_or-replicate zero v i h = elim h [ ]
get_or-replicate (suc n) v zero h = refl
get_or-replicate (suc n) v (suc i) h = get_or-replicate n v i (omega arith)

-- The target with a breakpoint put in.
abbrev pub planted : GdbUhyve → ℕ → ℕ → GdbUhyve
planted g addr kind = record g {
  memory = store_bytes g.memory (place g addr) (replicate kind opcode);
  sw_breakpoints = (key addr kind, load_bytes kind g.memory (place g addr)) ∷ g.sw_breakpoints;
}

same_key_refl : (addr kind : ℕ) → same_key (key addr kind) (key addr kind) ≡ true
same_key_refl addr kind = ground arith

add_sw_breakpoint-planted :
    (g : GdbUhyve) (addr kind : ℕ)
    → lookup (key addr kind) g.sw_breakpoints ≡ none
    → add_sw_breakpoint g addr kind ≡ (true, planted g addr kind)
unfolding add_sw_breakpoint
add_sw_breakpoint-planted g addr kind fresh = rw (fresh, add_sw_breakpoint)

remove_sw_breakpoint-planted :
    (g : GdbUhyve) (addr kind : ℕ)
    → place (planted g addr kind) addr ≡ place g addr
    → remove_sw_breakpoint (planted g addr kind) addr kind ≡ some (true, g)
unfolding remove_sw_breakpoint
remove_sw_breakpoint-planted g addr kind same = ground (
  arith,
  same_key_refl addr kind,
  length-load_bytes kind g.memory (place g addr),
  store_bytes_restore kind g.memory (place g addr) (replicate kind opcode),
  length-replicate kind opcode,
)

-- Adding a breakpoint that is not set puts the opcode into each byte of the instruction and changes
-- no other byte.
add_sw_breakpoint_plants :
    (g : GdbUhyve) (addr kind : ℕ)
    → lookup (key addr kind) g.sw_breakpoints ≡ none
    → let (added, g') = add_sw_breakpoint g addr kind in
      (added ≡ true)
      × ((i : ℕ) → i < kind → g'.memory (place g addr + i) ≡ opcode)
      × ((q : ℕ) → q < place g addr → g'.memory q ≡ g.memory q)
      × ((q : ℕ) → place g addr + kind ≤ q → g'.memory q ≡ g.memory q)
add_sw_breakpoint_plants g addr kind fresh =
    let at = place g addr in
    let ops = replicate kind opcode in
    rw (add_sw_breakpoint-planted g addr kind fresh) (
      refl,
      λ i h.
          store_bytes_inside g.memory at ops i (omega (arith, length-replicate kind opcode))
          ∙ get_or-replicate kind opcode i h,
      λ q h. store_bytes_below g.memory at ops q h,
      λ q h. store_bytes_above g.memory at ops q (omega (arith, length-replicate kind opcode)),
    )

-- Adding a breakpoint that is not set and removing it gives back the target from before, memory
-- and all, if the breakpoint does not change where its address is translated to.
pub remove_sw_breakpoint-add_sw_breakpoint :
    (g : GdbUhyve) (addr kind : ℕ)
    → lookup (key addr kind) g.sw_breakpoints ≡ none
    → place (planted g addr kind) addr ≡ place g addr
    → remove_sw_breakpoint (add_sw_breakpoint g addr kind).1 addr kind ≡ some (true, g)
remove_sw_breakpoint-add_sw_breakpoint g addr kind fresh same =
    rw (add_sw_breakpoint-planted g addr kind fresh) (remove_sw_breakpoint-planted g addr kind same)

-- A breakpoint that is set is not added again.
breakpoint_ignored :
    (g : GdbUhyve) (addr kind : ℕ) (saved : List ℕ)
    → lookup (key addr kind) g.sw_breakpoints ≡ some saved
    → add_sw_breakpoint g addr kind ≡ (false, g)
unfolding add_sw_breakpoint
breakpoint_ignored g addr kind saved there = rw (there, add_sw_breakpoint)
