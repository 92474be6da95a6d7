-- ===== src/Cli/Numbers.antt =====
-- The numbers of src/utils.rs: what `parse` makes of a text of digits.
use uhyve.Cli.Texts.{is_digit, parse_digits, parse, plus}
use native.Mathlib.Nat.{pow-succ', mul_assoc, add-mul, le-mul_of_pos_right}
use uhyve.Prelude.{
  Bool, List, Option, [], arith, false, if◌then◌else◌, length, ltb, none, refl, some, true, ℕ, ◌&&◌,
  ◌*◌, ◌+◌, ◌-◌, ◌<◌, ◌^◌, ◌∷◌, ◌≡◌, ◌≤◌, suc, zero, ap, ◌==◌, ◌∙◌,
}

abbrev pub all_digits : List ℕ → Bool
all_digits [] = true
all_digits (c ∷ cs) = is_digit c && all_digits cs

-- The number that a text of digits stands for, by the places of its digits.
unfoldable pub value : List ℕ → ℕ
value [] = 0
value (c ∷ cs) = (c - 48) * 10 ^ length cs + value cs

-- A number of `w` bits, written in decimal.
pub record IsNumber (w : ℕ) (text : List ℕ) (n : ℕ) : Type 0 where
  pub digits : all_digits text ≡ true
  pub nonempty : 0 < length text
  pub valued : value text ≡ n
  pub fits : n < 2 ^ w

one_le-pow : (l : ℕ) → 1 ≤ 10 ^ l
one_le-pow zero = omega arith
one_le-pow (suc l) = omega (arith, one_le-pow l)

-- The place of a digit, put before the others.
place : (acc d p : ℕ) → (acc * 10 + d) * p ≡ acc * (10 * p) + d * p
place acc d p = rw (add-mul, mul_assoc) refl

-- Two tests in a row, of which the second fails for the rest if the first does.
tests_merge :
    {A : Type 0}
    → (d b rest t : Bool) {r : Option A} (v : A)
    → (b ≡ true → r ≡ (if rest && t then some v else none))
    → (b ≡ false → t ≡ false)
    → (if d && b then r else none) ≡ (if (d && rest) && t then some v else none)
tests_merge false b rest t v sure late = refl
tests_merge true true rest t v sure late = sure refl
tests_merge true false true t v sure late = rw (late refl) refl
tests_merge true false false t v sure late = refl

pub parse_digits-value :
    (w acc : ℕ) (cs : List ℕ)
    → acc < 2 ^ w
    → let total = acc * 10 ^ length cs + value cs in
      parse_digits w acc cs ≡ (if all_digits cs && ltb total (2 ^ w) then some total else none)
unfolding parse_digits value
parse_digits-value w acc [] small = let e : acc * 1 + 0 ≡ acc = omega arith in rw e (ground arith)
parse_digits-value w acc (c ∷ cs) small =
    let acc' = acc * 10 + (c - 48) in
    let total = acc' * 10 ^ length cs + value cs in
    let power : 10 ^ suc (length cs) ≡ 10 * 10 ^ length cs = pow-succ' 10 (length cs) in
    let e : acc * 10 ^ suc (length cs) + ((c - 48) * 10 ^ length cs + value cs) ≡ total =
      omega (arith, ap (λ t. acc * t) power, place acc (c - 48) (10 ^ length cs)) in
    let more : acc' ≤ acc' * 10 ^ length cs = le-mul_of_pos_right acc' (one_le-pow (length cs)) in
    rw e (
      tests_merge (is_digit c) (ltb acc' (2 ^ w)) (all_digits cs) (ltb total (2 ^ w)) total
        (λ fits. parse_digits-value w acc' cs (ground arith)) (λ over. ground arith))

positive : (w : ℕ) → 0 < 2 ^ w
positive zero = omega arith
positive (suc w) = omega (arith, positive w, pow-succ' 2 w)

-- A text that has no sign in front.
parse_unsigned :
    (w : ℕ) (c : ℕ) (cs : List ℕ) → is_digit c ≡ true → parse w (c ∷ cs) ≡ parse_digits w 0 (c ∷ cs)
unfolding parse
parse_unsigned w c [] digit = refl
parse_unsigned w c (d ∷ cs) digit = let e : (c == plus) ≡ false = ground arith in rw e refl

-- The text of a number is read as that number.
pub parse-IsNumber : {w n : ℕ} {text : List ℕ} → IsNumber w text n → parse w text ≡ some n
parse-IsNumber {text = []} number = elim number.nonempty [ ]
parse-IsNumber {w = w} {n = n} {text = c ∷ cs} number =
    let digit : is_digit c ≡ true = ground arith in
    let total : 0 * 10 ^ suc (length cs) + value (c ∷ cs) ≡ n = omega (arith, number.valued) in
    let fits : ltb n (2 ^ w) ≡ true = ground (arith, number.fits) in
    parse_unsigned w c cs digit
    ∙ parse_digits-value w 0 (c ∷ cs) (positive w)
    ∙ rw (total, number.digits, fits) refl
