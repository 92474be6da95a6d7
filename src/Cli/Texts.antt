-- ===== src/Cli/Texts.antt =====
-- The numbers and the ranges of CPUs in a text, as src/utils.rs reads them.
use uhyve.Prelude.{
  Bool, List, Option, [], false, if◌then◌else◌, leb, ltb, map, none, some, true, ℕ, ◌&&◌, ◌*◌, ◌++◌,
  ◌+◌, ◌-◌, ◌==◌, ◌>>=◌, ◌^◌, ◌||◌, ◌∷◌, suc, zero,
}

-- `str::parse` to an unsigned integer of `w` bits: digits, after a plus sign or none.
abbrev pub is_digit : ℕ → Bool
is_digit c = leb 48 c && leb c 57

unfoldable pub parse_digits : (w acc : ℕ) → List ℕ → Option ℕ
parse_digits w acc [] = some acc
parse_digits w acc (c ∷ cs) =
    let acc' = acc * 10 + (c - 48) in
    let rest = parse_digits w acc' cs in if is_digit c && ltb acc' (2 ^ w) then rest else none

abbrev pub plus : ℕ
plus = 43

abbrev pub minus : ℕ
minus = 45

unfoldable pub parse : (w : ℕ) → List ℕ → Option ℕ
unfolding parse_digits
parse w [] = none
parse w (c ∷ []) = parse_digits w 0 (c ∷ [])
parse w (c ∷ d ∷ cs) =
    if c == plus then parse_digits w 0 (d ∷ cs) else parse_digits w 0 (c ∷ d ∷ cs)

unfoldable pub split_once : (delimiter : ℕ) → List ℕ → Option (List ℕ × List ℕ)
split_once delimiter [] = none
split_once delimiter (c ∷ cs) = elim (c == delimiter) [
  | true ↦ some ([], cs)
  | false ↦ split_once delimiter cs >>= λ (before, after). some (c ∷ before, after)
]

-- `range.split_once('-')`: a range, or one number
unfoldable pub parse_range : List ℕ → Option (ℕ × ℕ)
unfolding split_once parse
parse_range range = elim (split_once minus range) [
  | none ↦ do idx ← parse 64 range; some (idx, idx)
  | some (begin, finish) ↦ do a ← parse 64 begin; b ← parse 64 finish; some (a, b)
]

unfoldable pub count_up : (steps from : ℕ) → List ℕ
count_up zero from = []
count_up (suc steps) from = from ∷ count_up steps (from + 1)

-- `Either::Left(range.map(Ok))` or `Either::Right(iter::once(Err(err)))`; `a..=b` is empty if `b < a`
abbrev pub range_items : Option (ℕ × ℕ) → List (Option ℕ)
range_items none = none ∷ []
range_items (some (a, b)) = map some (count_up (b + 1 - a) a)

unfoldable pub parse_ranges : List (List ℕ) → List (Option ℕ)
unfolding parse_range count_up
parse_ranges [] = []
parse_ranges (range ∷ ranges) = range_items (parse_range range) ++ parse_ranges ranges

-- `collect::<Result<..., _>>()`
unfoldable pub collect : List (Option ℕ) → Option (List ℕ)
collect [] = some []
collect (none ∷ items) = none
collect (some n ∷ items) = do ns ← collect items; some (n ∷ ns)

abbrev pub contains : List ℕ → ℕ → Bool
contains [] k = false
contains (n ∷ ns) k = (k == n) || contains ns k
