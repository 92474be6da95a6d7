-- ===== src/Memory/Bytes.antt =====
-- Slices of memory: copies in and out.
use native.Mathlib.Decide.{dec_lt}
use uhyve.Prelude.{
  ℕ, zero, suc, ◌+◌, ◌-◌, ◌≤◌, ◌<◌, ◌≡◌, refl, ap, ◌∙◌, fun_ext, arith, List, [], ◌∷◌, length,
  get_or,
}
use uhyve.Memory.{Memory, write_byte, load_bytes, store_bytes}

pub store_bytes_below :
    (m : Memory) (a : ℕ) (bs : List ℕ) (q : ℕ) → q < a → store_bytes m a bs q ≡ m q
unfolding store_bytes
store_bytes_below m a [] q h = refl
store_bytes_below m a (b ∷ bs) q h =
    store_bytes_below (write_byte m a b) (a + 1) bs q (omega arith) ∙ ground arith

pub store_bytes_above :
    (m : Memory) (a : ℕ) (bs : List ℕ) (q : ℕ) → a + length bs ≤ q → store_bytes m a bs q ≡ m q
unfolding store_bytes
store_bytes_above m a [] q h = refl
store_bytes_above m a (b ∷ bs) q h =
    store_bytes_above (write_byte m a b) (a + 1) bs q (omega arith) ∙ ground arith

pub store_bytes_inside :
    (m : Memory) (a : ℕ) (bs : List ℕ) (i : ℕ)
    → i < length bs
    → store_bytes m a bs (a + i) ≡ get_or bs i 0
unfolding store_bytes
store_bytes_inside m a [] i h = elim h [ ]
store_bytes_inside m a (b ∷ bs) zero h =
    store_bytes_below (write_byte m a b) (a + 1) bs (a + 0) (omega arith) ∙ ground arith
store_bytes_inside m a (b ∷ bs) (suc i) h =
    ap (store_bytes (write_byte m a b) (a + 1) bs) (omega arith)
    ∙ store_bytes_inside (write_byte m a b) (a + 1) bs i (omega arith)

pub length-load_bytes : (n : ℕ) (m : Memory) (a : ℕ) → length (load_bytes n m a) ≡ n
unfolding load_bytes
length-load_bytes zero m a = refl
length-load_bytes (suc n) m a = ap suc (length-load_bytes n m (a + 1))

pub get_or-load_bytes :
    (n : ℕ) (m : Memory) (a i : ℕ) → i < n → get_or (load_bytes n m a) i 0 ≡ m (a + i)
unfolding load_bytes
get_or-load_bytes zero m a i h = elim h [ ]
get_or-load_bytes (suc n) m a zero h = ap m (omega arith)
get_or-load_bytes (suc n) m a (suc i) h =
    get_or-load_bytes n m (a + 1) i (omega arith) ∙ ap m (omega arith)

-- Writing back what was read before another slice of the same length was written.
pub store_bytes_restore :
    (n : ℕ) (m : Memory) (a : ℕ) (bs : List ℕ)
    → length bs ≡ n
    → store_bytes (store_bytes m a bs) a (load_bytes n m a) ≡ m
store_bytes_restore n m a bs size = fun_ext λ q. elim (dec_lt q a) [
  | yes below ↦ store_bytes_below _ a (load_bytes n m a) q below ∙ store_bytes_below m a bs q below
  | no above ↦ elim (dec_lt q (a + n)) [
    | yes inside ↦
        let at : q ≡ a + (q - a) = omega arith in
        rw at (
          store_bytes_inside (store_bytes m a bs) a (load_bytes n m a) (q - a)
            (omega (arith, length-load_bytes n m a))
          ∙ get_or-load_bytes n m a (q - a) (omega arith))
    | no outside ↦
        store_bytes_above _ a (load_bytes n m a) q (omega (arith, length-load_bytes n m a))
        ∙ store_bytes_above m a bs q (omega arith)
  ]
]
