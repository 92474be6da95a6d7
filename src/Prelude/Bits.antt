-- ===== src/Prelude/Bits.antt =====
-- The laws of `bit_and` and `bit_or` at variables: both work field by field.
use Prim.Native.Nat.{
  ℕ, zero, suc, ◌+◌, ◌-◌, ◌*◌, ◌/◌, ◌%◌, ◌^◌, ◌≤◌, ◌<◌, min, max, bit_and, bit_or, digits,
  bit_and-bitwise, bit_or-bitwise,
}
use mathlib.Core.Path.{◌≡◌, refl, sym, ap, subst, ◌∙◌}
use native.Mathlib.Nat.{add-mul-div_left, div-div-eq-div-mul, pow-suc, le_refl, one-le-pow}
use native.Mathlib.Omega.{arith}

-- The native operations read off binary digits with fuel, the left number. More of it gives the
-- same digits, so that one digit can be split off.
module _ (rest : ℕ → ℕ) (digit : ℕ → ℕ → ℕ) where
  settled :
      (bound fuel x y : ℕ)
      → fuel ≤ bound
      → x ≤ fuel
      → digits rest digit fuel x y ≡ digits rest digit x x y
  settled bound zero zero y below enough = refl
  settled bound (suc fuel) zero y below enough = refl
  settled bound zero (suc x) y below enough = absurd (omega arith)
  settled zero (suc fuel) (suc x) y below enough = absurd (omega arith)
  settled (suc bound) (suc fuel) (suc x) y below enough =
      let half = suc x / 2 in
      omega (
        arith,
        settled bound fuel half (y / 2) (omega arith) (omega arith),
        settled bound x half (y / 2) (omega arith) (omega arith),
      )

  lowest_digit :
      (x y : ℕ)
      → digits rest digit (suc x) (suc x) y
        ≡ digits rest digit (suc x / 2) (suc x / 2) (y / 2) * 2 + digit (suc x % 2) (y % 2)
  lowest_digit x y = omega (arith, settled x x (suc x / 2) (y / 2) (le_refl x) (omega arith))

-- One step: the lowest digit and the rest.
bit_or_step : (x y : ℕ) → bit_or x y ≡ bit_or (x / 2) (y / 2) * 2 + max (x % 2) (y % 2)
bit_or_step zero y = simp bit_or-bitwise (omega arith)
bit_or_step (suc x) y = simp bit_or-bitwise (lowest_digit (λ t. t) max x y)

bit_and_step : (x y : ℕ) → bit_and x y ≡ bit_and (x / 2) (y / 2) * 2 + min (x % 2) (y % 2)
bit_and_step zero y = simp bit_and-bitwise (omega arith)
bit_and_step (suc x) y = simp bit_and-bitwise (lowest_digit (λ _. 0) min x y)

mul-two_pow_suc : (q k : ℕ) → q * 2 ^ suc k ≡ 2 * (q * 2 ^ k)
mul-two_pow_suc q k = omega (arith, ap (λ (t : ℕ). q * t) (pow-suc 2 k))

module _ (f : ℕ → ℕ → ℕ) (g : ℕ → ℕ → ℕ)
    (step : (a b : ℕ) → f a b ≡ f (a / 2) (b / 2) * 2 + g (a % 2) (b % 2)) (zeros : f 0 0 ≡ 0) where
  -- An operation on digits works on the part above bit `k` and on the part below it.
  split :
      (k a b c d : ℕ)
      → b < 2 ^ k
      → d < 2 ^ k
      → f (a * 2 ^ k + b) (c * 2 ^ k + d) ≡ f a c * 2 ^ k + f b d
  split zero a zero c zero hb hd =
      let left : a * 1 + 0 ≡ a = omega arith in
      let right : c * 1 + 0 ≡ c = omega arith in rw (left, right) (omega (arith, zeros))
  split zero a (suc b) c d hb hd = absurd (omega arith)
  split zero a zero c (suc d) hb hd = absurd (omega arith)
  split (suc k) a b c d hb hd = ground (
    arith,
    step (a * 2 ^ suc k + b) (c * 2 ^ suc k + d),
    step b d,
    mul-two_pow_suc a k,
    mul-two_pow_suc c k,
    mul-two_pow_suc (f a c) k,
    pow-suc 2 k,
    split k a (b / 2) c (d / 2) (omega (arith, pow-suc 2 k)) (omega (arith, pow-suc 2 k)),
  )

pub bit_and_split :
    (k a b c d : ℕ)
    → b < 2 ^ k
    → d < 2 ^ k
    → bit_and (a * 2 ^ k + b) (c * 2 ^ k + d) ≡ bit_and a c * 2 ^ k + bit_and b d
bit_and_split = split bit_and min bit_and_step refl

pub bit_or_split :
    (k a b c d : ℕ)
    → b < 2 ^ k
    → d < 2 ^ k
    → bit_or (a * 2 ^ k + b) (c * 2 ^ k + d) ≡ bit_or a c * 2 ^ k + bit_or b d
bit_or_split = split bit_or max bit_or_step refl

-- Laws that hold at both digits hold at all numbers: a strong induction, by a bound.
zero-bit_and_upto : (n b : ℕ) → b ≤ n → bit_and 0 b ≡ 0
zero-bit_and_upto n zero h = refl
zero-bit_and_upto zero (suc b) h = absurd (omega arith)
zero-bit_and_upto (suc n) (suc b) h =
    omega (arith, bit_and_step 0 (suc b), zero-bit_and_upto n (suc b / 2) (omega arith))

pub zero-bit_and : (b : ℕ) → bit_and 0 b ≡ 0
zero-bit_and b = zero-bit_and_upto b b (le_refl b)

bit_and-zero_upto : (n a : ℕ) → a ≤ n → bit_and a 0 ≡ 0
bit_and-zero_upto n zero h = refl
bit_and-zero_upto zero (suc a) h = absurd (omega arith)
bit_and-zero_upto (suc n) (suc a) h =
    omega (arith, bit_and_step (suc a) 0, bit_and-zero_upto n (suc a / 2) (omega arith))

pub bit_and-zero : (a : ℕ) → bit_and a 0 ≡ 0
bit_and-zero a = bit_and-zero_upto a a (le_refl a)

bit_and-self_upto : (n a : ℕ) → a ≤ n → bit_and a a ≡ a
bit_and-self_upto n zero h = refl
bit_and-self_upto zero (suc a) h = absurd (omega arith)
bit_and-self_upto (suc n) (suc a) h =
    omega (arith, bit_and_step (suc a) (suc a), bit_and-self_upto n (suc a / 2) (omega arith))

pub bit_and_self : (a : ℕ) → bit_and a a ≡ a
bit_and_self a = bit_and-self_upto a a (le_refl a)

zero-bit_or_upto : (n b : ℕ) → b ≤ n → bit_or 0 b ≡ b
zero-bit_or_upto n zero h = refl
zero-bit_or_upto zero (suc b) h = absurd (omega arith)
zero-bit_or_upto (suc n) (suc b) h =
    omega (arith, bit_or_step 0 (suc b), zero-bit_or_upto n (suc b / 2) (omega arith))

pub zero-bit_or : (b : ℕ) → bit_or 0 b ≡ b
zero-bit_or b = zero-bit_or_upto b b (le_refl b)

bit_or-zero_upto : (n a : ℕ) → a ≤ n → bit_or a 0 ≡ a
bit_or-zero_upto n zero h = refl
bit_or-zero_upto zero (suc a) h = absurd (omega arith)
bit_or-zero_upto (suc n) (suc a) h =
    omega (arith, bit_or_step (suc a) 0, bit_or-zero_upto n (suc a / 2) (omega arith))

pub bit_or-zero : (a : ℕ) → bit_or a 0 ≡ a
bit_or-zero a = bit_or-zero_upto a a (le_refl a)

bit_and-le_upto : (n a b : ℕ) → a ≤ n → bit_and a b ≤ a
bit_and-le_upto n zero b h = omega (arith, zero-bit_and b)
bit_and-le_upto zero (suc a) b h = absurd (omega arith)
bit_and-le_upto (suc n) (suc a) b h =
    omega (arith, bit_and_step (suc a) b, bit_and-le_upto n (suc a / 2) (b / 2) (omega arith))

pub bit_and-le : (a b : ℕ) → bit_and a b ≤ a
bit_and-le a b = bit_and-le_upto a a b (le_refl a)

-- `x & (2 ^ k - 1)` is the remainder.
bit_and_ones : (k r : ℕ) → r < 2 ^ k → bit_and r (2 ^ k - 1) ≡ r
bit_and_ones zero r h = rw bit_and-zero (omega arith)
bit_and_ones (suc k) r h = ground (
  arith,
  pow-suc 2 k,
  one-le-pow k 2,
  bit_and_step r (2 ^ suc k - 1),
  bit_and_ones k (r / 2) (omega (arith, pow-suc 2 k)),
)

pub bit_and_mask : (k a : ℕ) → bit_and a (2 ^ k - 1) ≡ a % 2 ^ k
bit_and_mask k a = ground (
  arith,
  one-le-pow k 2,
  bit_and_split k (a / 2 ^ k) (a % 2 ^ k) 0 (2 ^ k - 1),
  bit_and-zero (a / 2 ^ k),
  bit_and_ones k (a % 2 ^ k),
)

-- `(q << k) | r` is a sum when `r` fits below.
pub bit_or_fields : (k q r : ℕ) → r < 2 ^ k → bit_or (q * 2 ^ k) r ≡ q * 2 ^ k + r
bit_or_fields k q r h =
    ground (arith, bit_or_split k q 0 0 r, one-le-pow k 2, bit_or-zero q, zero-bit_or r)

-- `x & (m << k)`: the mask reads the digits above `k` only.
pub bit_and_shifted : (k a m : ℕ) → bit_and a (m * 2 ^ k) ≡ bit_and (a / 2 ^ k) m * 2 ^ k
bit_and_shifted k a m =
    ground
      (arith, one-le-pow k 2, bit_and_split k (a / 2 ^ k) (a % 2 ^ k) m 0, bit_and-zero (a % 2 ^ k))

-- `x & (1 << k)` is bit `k`, in its place.
pub bit_and_bit : (k a : ℕ) → bit_and a (1 * 2 ^ k) ≡ a / 2 ^ k % 2 * 2 ^ k
bit_and_bit k a = bit_and_shifted k a 1 ∙ ap (λ (t : ℕ). t * 2 ^ k) (bit_and_mask 1 (a / 2 ^ k))

pub pow-add : (j k : ℕ) → 2 ^ (j + k) ≡ 2 ^ j * 2 ^ k
pow-add zero k = ground arith
pow-add (suc j) k =
    let e : suc j + k ≡ suc (j + k) = omega arith in
    rw (e, pow-suc 2 (j + k), pow-suc 2 j, pow-add j k) (omega arith)

bit_and_idem_upto : (n a m : ℕ) → a ≤ n → bit_and (bit_and a m) m ≡ bit_and a m
bit_and_idem_upto n zero m h = rw (zero-bit_and m, zero-bit_and m)
bit_and_idem_upto zero (suc a) m h = absurd (omega arith)
bit_and_idem_upto (suc n) (suc a) m h =
    let x = bit_and (suc a) m in
    let step = bit_and_step (suc a) m in
    let half : x / 2 ≡ bit_and (suc a / 2) (m / 2) = omega arith in
    omega (
      arith,
      step,
      bit_and_step x m,
      ap (λ (t : ℕ). bit_and t (m / 2)) half,
      bit_and_idem_upto n (suc a / 2) (m / 2) (omega arith),
    )

-- A mask twice is the mask.
pub bit_and_idem : (a m : ℕ) → bit_and (bit_and a m) m ≡ bit_and a m
bit_and_idem a m = bit_and_idem_upto a a m (le_refl a)

halves : (x k : ℕ) → x / 2 ^ suc k ≡ x / 2 / 2 ^ k
halves x k =
    let e : 2 ^ suc k ≡ 2 * 2 ^ k = omega (arith, pow-suc 2 k) in
    rw e (sym (div-div-eq-div-mul x 2 (2 ^ k)))

-- Bit `k` of a conjunction and of a disjunction.
pub bit_and_digit : (k x y : ℕ) → bit_and x y / 2 ^ k % 2 ≡ min (x / 2 ^ k % 2) (y / 2 ^ k % 2)
bit_and_digit zero x y = omega (arith, bit_and_step x y)
bit_and_digit (suc k) x y =
    let half : bit_and x y / 2 ≡ bit_and (x / 2) (y / 2) = omega (arith, bit_and_step x y) in
    rw (halves (bit_and x y) k, halves x k, halves y k, half) (bit_and_digit k (x / 2) (y / 2))

pub bit_or_digit : (k x y : ℕ) → bit_or x y / 2 ^ k % 2 ≡ max (x / 2 ^ k % 2) (y / 2 ^ k % 2)
bit_or_digit zero x y = omega (arith, bit_or_step x y)
bit_or_digit (suc k) x y =
    let half : bit_or x y / 2 ≡ bit_or (x / 2) (y / 2) = omega (arith, bit_or_step x y) in
    rw (halves (bit_or x y) k, halves x k, halves y k, half) (bit_or_digit k (x / 2) (y / 2))

-- The digits below `n` are those of the remainder.
digit-rem : (k d x r q : ℕ) → x ≡ q * 2 ^ (k + suc d) + r → r / 2 ^ k % 2 ≡ x / 2 ^ k % 2
digit-rem k d x r q e =
    let parts : 2 ^ (k + suc d) ≡ 2 ^ k * (2 * 2 ^ d) =
      pow-add k (suc d) ∙ ap (λ (t : ℕ). 2 ^ k * t) (omega (arith, pow-suc 2 d)) in
    let e' : x ≡ r + 2 ^ k * (2 * (q * 2 ^ d)) = omega (arith, e, ap (λ (t : ℕ). q * t) parts) in
    omega (
      arith,
      ap (λ (t : ℕ). t / 2 ^ k) e',
      add-mul-div_left r (2 * (q * 2 ^ d)) {y = 2 ^ k} (one-le-pow k 2 (omega arith)),
    )

pub low_digit : (n k x : ℕ) → k < n → x % 2 ^ n / 2 ^ k % 2 ≡ x / 2 ^ k % 2
low_digit n k x h =
    let e : n ≡ k + suc (n - 1 - k) = omega arith in
    digit-rem k (n - 1 - k) x (x % 2 ^ n) (x / 2 ^ n)
      (subst (λ (t : ℕ). x ≡ x / 2 ^ n * 2 ^ t + x % 2 ^ n) e (omega arith))
