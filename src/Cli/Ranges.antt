-- ===== src/Cli/Ranges.antt =====
-- `parse_ranges` of src/utils.rs on a list of numbers and ranges.
use uhyve.Cli.Texts.{collect, contains, count_up, minus, parse_range, parse_ranges, split_once}
use uhyve.Cli.Numbers.{IsNumber, all_digits, parse-IsNumber}
use uhyve.Prelude.{
  Bool, List, Option, [], arith, false, leb, ltb, map, none, refl, some, true, ℕ, ◌&&◌, ◌++◌, ◌+◌,
  ◌-◌, ◌==◌, ◌∷◌, ◌≡◌, ◌||◌, suc, zero, ◌∙◌,
}

-- A text for the numbers from `a` to `b`.
pub data IsRange : List ℕ → ℕ → ℕ → Type 0 where
  single : {text : List ℕ} {n : ℕ} → IsNumber 64 text n → IsRange text n n
  span :
      {before after : List ℕ} {a b : ℕ}
      → IsNumber 64 before a
      → IsNumber 64 after b
      → IsRange (before ++ minus ∷ after) a b

pub data AreRanges : List (List ℕ) → List (ℕ × ℕ) → Type 0 where
  no_ranges : AreRanges [] []
  one_more :
      {text : List ℕ} {a b : ℕ} {texts : List (List ℕ)} {ranges : List (ℕ × ℕ)}
      → IsRange text a b
      → AreRanges texts ranges
      → AreRanges (text ∷ texts) ((a, b) ∷ ranges)

-- A number that is in one of the ranges.
unfoldable pub covers : List (ℕ × ℕ) → ℕ → Bool
covers [] k = false
covers ((a, b) ∷ ranges) k = (leb a k && leb k b) || covers ranges k

split_once-none : (cs : List ℕ) → all_digits cs ≡ true → split_once minus cs ≡ none
unfolding split_once
split_once-none [] digits = refl
split_once-none (c ∷ cs) digits =
    let e : (c == minus) ≡ false = ground arith in
    rw (split_once, e, split_once-none cs (ground arith)) refl

split_once-append :
    (before after : List ℕ)
    → all_digits before ≡ true
    → split_once minus (before ++ minus ∷ after) ≡ some (before, after)
unfolding split_once
split_once-append [] after digits = refl
split_once-append (c ∷ cs) after digits =
    let e : (c == minus) ≡ false = ground arith in
    rw (split_once, e, split_once-append cs after (ground arith)) refl

parse_range-IsRange : {text : List ℕ} {a b : ℕ} → IsRange text a b → parse_range text ≡ some (a, b)
unfolding parse_range
parse_range-IsRange (single {text = text} number) =
    rw (parse_range, split_once-none text number.digits, parse-IsNumber number) refl
parse_range-IsRange (span {before = before} {after = after} first last) =
    rw
      (
        parse_range,
        split_once-append before after first.digits,
        parse-IsNumber first,
        parse-IsNumber last,
      )
      refl

collect-append :
    (ns : List ℕ) (items : List (Option ℕ)) (rest : List ℕ)
    → collect items ≡ some rest
    → collect (map some ns ++ items) ≡ some (ns ++ rest)
unfolding collect
collect-append [] items rest e = e
collect-append (n ∷ ns) items rest e = rw (collect-append ns items rest e) refl

contains-append :
    (ns ms : List ℕ) (k : ℕ) → contains (ns ++ ms) k ≡ (contains ns k || contains ms k)
contains-append [] ms k = refl
contains-append (n ∷ ns) ms k = rw (contains-append ns ms k) (ground arith)

contains-count_up :
    (steps from k : ℕ) → contains (count_up steps from) k ≡ (leb from k && ltb k (from + steps))
unfolding count_up
contains-count_up zero from k = ground arith
contains-count_up (suc steps) from k = rw (contains-count_up steps (from + 1) k) (ground arith)

-- A list of numbers and ranges is read as the numbers in them: no number is missing or added.
pub parse_ranges-covers :
    {texts : List (List ℕ)} {ranges : List (ℕ × ℕ)}
    → AreRanges texts ranges
    → (ids : List ℕ) × (collect (parse_ranges texts) ≡ some ids)
      × ((k : ℕ) → contains ids k ≡ covers ranges k)
unfolding parse_ranges collect covers
parse_ranges-covers no_ranges = ([], refl, λ k. refl)
parse_ranges-covers (one_more {a = a} {b = b} {texts = texts} range more) =
    let (ids, read, same) = parse_ranges-covers more in
    let ns = count_up (b + 1 - a) a in
    (
      ns ++ ids,
      rw (parse_ranges, parse_range-IsRange range)
          (collect-append ns (parse_ranges texts) ids read),
      λ k. contains-append ns ids k ∙ rw (contains-count_up (b + 1 - a) a k, same k) (ground arith),
    )
