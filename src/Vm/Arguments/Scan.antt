-- ===== src/Vm/Arguments/Scan.antt =====
-- The loops of `cmdsize` and `cmdval` over the arguments, by the arguments behind the first `--`.
use uhyve.Prelude.{
  List, [], false, if◌then◌else◌, length, map, some, true, ℕ, ◌%◌, ◌*◌, ◌+◌, ◌<◌, ◌^◌, ◌∷◌, ◌≡◌,
  Bool-cases, arith, inl, inr, leb, ltb, refl, subst, suc, ◌-◌, ◌∙◌,
}
use uhyve.Memory.{Memory, store}
use uhyve.Vm.Arguments.{
  Scanning, see, is_application, eq_bytes, dashes, put_argszs, put_argsz, max_argc,
}

-- The arguments of the application.
abbrev pub after_separator : List (List ℕ) → List (List ℕ)
after_separator [] = []
after_separator (a ∷ xs) = let rest = after_separator xs in if eq_bytes a dashes then xs else rest

-- Words of 32 bits in a row.
unfoldable pub store_words : Memory → ℕ → List ℕ → Memory
store_words m base [] = m
store_words m base (v ∷ vs) = store_words (store 4 m base v) (base + 4) vs

abbrev pub size_of : List ℕ → ℕ
size_of a = (length a + 1) % 2 ^ 32

abbrev pub sep_at : ℕ → ℕ → Scanning
sep_at p c = record { counter = c; separator_pos = p; found_separator = true }

abbrev pub before : ℕ → Scanning
before c = record { counter = c; separator_pos = 0; found_separator = false }

put_argszs-step :
    (m : Memory) (args_ptr : ℕ) (a : List ℕ) (xs : List (List ℕ)) (p k : ℕ)
    → k + 1 < max_argc
    → put_argszs m args_ptr (a ∷ xs) (sep_at p (p + k))
      ≡ put_argszs
          (store 4 m (args_ptr + 8 + 4 * k) (size_of a))
          args_ptr
          xs
          (sep_at p (p + (k + 1)))
unfolding put_argszs see put_argsz
put_argszs-step m args_ptr a xs p k room =
    let i : p + k - p + 1 ≡ k + 1 = omega arith in
    let at : args_ptr + 4 + 4 * (k + 1) ≡ args_ptr + 8 + 4 * k = omega arith in
    let next : p + k + 1 ≡ p + (k + 1) = omega arith in
    let passes : leb p (p + k) ≡ true = ground arith in
    let fits : ltb (k + 1) max_argc ≡ true = ground arith in rw (passes, i, fits, at, next) refl

put_argszs-after :
    (m : Memory) (args_ptr : ℕ) (xs : List (List ℕ)) (p k : ℕ)
    → k + length xs < max_argc
    → put_argszs m args_ptr xs (sep_at p (p + k))
      ≡ some (store_words m (args_ptr + 8 + 4 * k) (map size_of xs), sep_at p (p + k + length xs))
unfolding put_argszs store_words
put_argszs-after m args_ptr [] p k room = let e : p + k + 0 ≡ p + k = omega arith in rw e refl
put_argszs-after m args_ptr (a ∷ xs) p k room =
    let at : args_ptr + 8 + 4 * (k + 1) ≡ args_ptr + 8 + 4 * k + 4 = omega arith in
    let sum : p + (k + 1) + length xs ≡ p + k + suc (length xs) = omega arith in
    put_argszs-step m args_ptr a xs p k (omega arith)
    ∙ put_argszs-after (store 4 m (args_ptr + 8 + 4 * k) (size_of a)) args_ptr xs p (k + 1)
        (omega arith)
    ∙ rw (at, sum) refl

put_argszs-found :
    (m : Memory) (args_ptr : ℕ) (a : List ℕ) (xs : List (List ℕ)) (c : ℕ)
    → eq_bytes a dashes ≡ true
    → put_argszs m args_ptr (a ∷ xs) (before c)
      ≡ put_argszs m args_ptr xs (sep_at (c + 1) (c + 1 + 0))
unfolding put_argszs see
put_argszs-found m args_ptr a xs c yes_ =
    let late : leb (c + 1) c ≡ false = ground arith in
    let e : c + 1 + 0 ≡ c + 1 = omega arith in rw (yes_, late, e) refl

put_argszs-passed :
    (m : Memory) (args_ptr : ℕ) (a : List ℕ) (xs : List (List ℕ)) (c : ℕ)
    → eq_bytes a dashes ≡ false
    → put_argszs m args_ptr (a ∷ xs) (before c) ≡ put_argszs m args_ptr xs (before (c + 1))
unfolding put_argszs see
put_argszs-passed m args_ptr a xs c other = rw other refl

-- `argc` at the end of the loop.
abbrev pub argc_of : Scanning → ℕ
argc_of s = if is_application s then (s.counter - s.separator_pos + 1) % 2 ^ 32 else 1

pub put_argszs_lem :
    (m : Memory) (args_ptr : ℕ) (xs : List (List ℕ)) (c : ℕ)
    → length (after_separator xs) < max_argc
    → (s : Scanning) × (put_argszs m args_ptr xs (before c)
        ≡ some (store_words m (args_ptr + 8) (map size_of (after_separator xs)), s))
      × (argc_of s ≡ length (after_separator xs) + 1)
unfolding put_argszs store_words
put_argszs_lem m args_ptr [] c room = (before c, refl, refl)
put_argszs_lem m args_ptr (a ∷ xs) c room = elim (Bool-cases (eq_bytes a dashes)) [
  | inl separator ↦
      let here : after_separator (a ∷ xs) ≡ xs = rw separator refl in
      let e : args_ptr + 8 + 4 * 0 ≡ args_ptr + 8 = omega arith in
      let room' : length xs < max_argc =
        subst (λ (l : List (List ℕ)). length l < max_argc) here room in
      rw here (
        sep_at (c + 1) (c + 1 + 0 + length xs),
        put_argszs-found m args_ptr a xs c separator
            ∙ put_argszs-after m args_ptr xs (c + 1) 0 (omega arith)
            ∙ rw e refl,
        ground arith,
      )
  | inr other ↦
      let skip : after_separator (a ∷ xs) ≡ after_separator xs = rw other refl in
      let (s, loop, argc) =
        put_argszs_lem m args_ptr xs (c + 1)
          (subst (λ (l : List (List ℕ)). length l < max_argc) skip room) in
      rw skip (s, put_argszs-passed m args_ptr a xs c other ∙ loop, argc)
]
