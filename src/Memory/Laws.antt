-- ===== src/Memory/Laws.antt =====
-- Reads after writes: the same range, a range apart, and single bytes.
use native.Mathlib.Nat.{pow-suc}
use uhyve.Prelude.{ℕ, zero, suc, ◌+◌, ◌/◌, ◌^◌, ◌≤◌, ◌<◌, ◌≡◌, refl, ◌∙◌, ◌⊎◌, arith}
use uhyve.Memory.{Memory, write_byte, load, store}

-- The ranges of `n` bytes at `a` and `k` bytes at `b` do not meet.
abbrev pub Apart : ℕ → ℕ → ℕ → ℕ → Type 0
Apart a n b k = (a + n ≤ b) ⊎ (b + k ≤ a)

pub store_outside : (n : ℕ) (m : Memory) (a v q : ℕ) → Apart a n q 1 → store n m a v q ≡ m q
unfolding store
store_outside zero m a v q h = refl
store_outside (suc n) m a v q h = ground (arith, store_outside n m (a + 1) (v / 256) q)

pub load_same :
    (n : ℕ) (m m' : Memory) (a : ℕ)
    → ((q : ℕ) → a ≤ q → q < a + n → m q ≡ m' q)
    → load n m a ≡ load n m' a
unfolding load
load_same zero m m' a h = refl
load_same (suc n) m m' a h =
    let rest = load_same n m m' (a + 1) (λ q p r. h q (omega arith) (omega arith)) in
    ground (arith, h a (omega arith) (omega arith), rest)

-- A write leaves every word apart from it alone.
pub load-store-Apart :
    (k n : ℕ) (m : Memory) (a v b : ℕ) → Apart a n b k → load k (store n m a v) b ≡ load k m b
load-store-Apart k n m a v b h =
    load_same k (store n m a v) m b (λ q p r. store_outside n m a v q (ground arith))

pub load-lt : (n : ℕ) (m : Memory) (a : ℕ) → load n m a < 256 ^ n
unfolding load
load-lt zero m a = omega arith
load-lt (suc n) m a = omega (arith, pow-suc 256 n, load-lt n m (a + 1))

-- A word that fits is read back as it was written.
pub load-store : (n : ℕ) (m : Memory) (a v : ℕ) → v < 256 ^ n → load n (store n m a v) a ≡ v
unfolding load store write_byte
load-store zero m a v h = omega arith
load-store (suc n) m a v h =
    let rest = load-store n m (a + 1) (v / 256) (omega (arith, pow-suc 256 n)) in
    let under : load n (store (suc n) m a v) (a + 1) ≡ v / 256 =
      load_same n _ _ (a + 1) (λ q p r. ground arith) ∙ rest in
    ground (arith, under)
