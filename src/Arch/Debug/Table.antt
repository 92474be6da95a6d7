-- ===== src/Arch/Debug/Table.antt =====
-- The table of breakpoints as a bounded store.
use uhyve.Prelude.{
  ℕ, ◌+◌, ◌<◌, ◌≡◌, refl, arith, true, none, some, [], ◌∷◌, length, if◌then◌else◌, ap, Bool-cases,
  inl, inr,
}
use uhyve.Arch.Debug.{
  HwBreakpoint, HwBreakpoints, HwBreakpointCondition, instruction_execution, data_writes,
  data_reads_writes, io_reads_writes, same, same_condition, try_insert, take,
}

-- How often a breakpoint is set, and how many slots are free.
unfoldable pub count : HwBreakpoint → HwBreakpoints → ℕ
count b [] = 0
count b (none ∷ slots) = count b slots
count b (some a ∷ slots) = (if same a b then 1 else 0) + count b slots

unfoldable pub free : HwBreakpoints → ℕ
free [] = 0
free (none ∷ slots) = 1 + free slots
free (some a ∷ slots) = free slots

same_condition_refl : (c : HwBreakpointCondition) → same_condition c c ≡ true
same_condition_refl instruction_execution = refl
same_condition_refl data_writes = refl
same_condition_refl data_reads_writes = refl
same_condition_refl io_reads_writes = refl

same_refl : (b : HwBreakpoint) → same b b ≡ true
same_refl b = ground (arith, same_condition_refl b.condition)

same_sound : (a b : HwBreakpoint) → same a b ≡ true → a ≡ b
same_sound a b h = ground arith

-- The slots after a breakpoint has been set: one free slot less, and it is set once more.
pub record IsInserted (b : HwBreakpoint) (slots slots' : HwBreakpoints) : Type 0 where
  pub size : length slots' ≡ length slots
  pub room : free slots' + 1 ≡ free slots
  pub counts : (c : HwBreakpoint) → count c slots' ≡ count c slots + (if same b c then 1 else 0)
  pub undo : count b slots ≡ 0 → take b slots' ≡ some (b, slots)

-- A breakpoint is set if a slot is free: the slots have one more of it, nothing else is lost, and
-- taking it out again gives back the very slots from before, if it was not set already.
try_insert-IsInserted :
    (b : HwBreakpoint) (slots : HwBreakpoints)
    → 0 < free slots
    → (slots' : HwBreakpoints) × (try_insert b slots ≡ some slots') × IsInserted b slots slots'
unfolding try_insert take count free
try_insert-IsInserted b [] h = elim h [ ]
try_insert-IsInserted b (none ∷ slots) h = (
  some b ∷ slots,
  refl,
  record {
    size = refl;
    room = omega arith;
    counts = λ c. omega arith;
    undo = λ e. rw (same_refl b);
  },
)
try_insert-IsInserted b (some a ∷ slots) h =
    let (slots', returns, done) = try_insert-IsInserted b slots h in
    (
      some a ∷ slots',
      rw returns,
      record {
        size = omega (arith, done.size);
        room = done.room;
        counts = λ c. omega (arith, done.counts c);
        undo = λ e. ground (arith, done.undo);
      },
    )

-- Without a free slot the breakpoint is refused.
try_insert-none :
    (b : HwBreakpoint) (slots : HwBreakpoints) → free slots ≡ 0 → try_insert b slots ≡ none
unfolding try_insert free
try_insert-none b [] h = refl
try_insert-none b (none ∷ slots) h = absurd (omega arith)
try_insert-none b (some a ∷ slots) h = rw (try_insert-none b slots h)

pub record IsTaken (b : HwBreakpoint) (slots slots' : HwBreakpoints) : Type 0 where
  pub size : length slots' ≡ length slots
  pub room : free slots' ≡ free slots + 1
  pub counts : (c : HwBreakpoint) → count c slots' + (if same b c then 1 else 0) ≡ count c slots

-- A breakpoint that is set is taken out once, and its slot is free.
take-IsTaken :
    (b : HwBreakpoint) (slots : HwBreakpoints)
    → 0 < count b slots
    → (slots' : HwBreakpoints) × (take b slots ≡ some (b, slots')) × IsTaken b slots slots'
unfolding take count free
take-IsTaken b [] h = elim h [ ]
take-IsTaken b (none ∷ slots) h =
    let (slots', returns, done) = take-IsTaken b slots h in
    (
      none ∷ slots',
      rw returns,
      record {
        size = omega (arith, done.size);
        room = omega (arith, done.room);
        counts = done.counts;
      },
    )
take-IsTaken b (some a ∷ slots) h = elim (Bool-cases (same a b)) [
  | inl hit ↦
      let eq = same_sound a b hit in
      (
        none ∷ slots,
        rw hit (ap (λ (c : HwBreakpoint). some (c, none ∷ slots)) eq),
        record { size = refl; room = omega arith; counts = λ c. rw eq (omega arith) },
      )
  | inr miss ↦
      let (slots', returns, done) = take-IsTaken b slots (ground arith) in
      (
        some a ∷ slots',
        rw (miss, returns),
        record {
          size = omega (arith, done.size);
          room = done.room;
          counts = λ c. omega (arith, done.counts c);
        },
      )
]

-- One that is not set is not found.
take-none : (b : HwBreakpoint) (slots : HwBreakpoints) → count b slots ≡ 0 → take b slots ≡ none
unfolding take count
take-none b [] h = refl
take-none b (none ∷ slots) h = rw (take-none b slots h)
take-none b (some a ∷ slots) h = ground (arith, take-none b slots)
