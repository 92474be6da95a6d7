-- ===== src/Memory.antt =====
-- Memory as the code reaches it through raw pointers: a byte at each address of the host.
-- An unsafe read or write has no bounds check, so neither has the model; the theorems state the
-- ranges that are touched. Words are little-endian, as on x86-64.
pub mod Laws
pub mod Bytes
use uhyve.Prelude.{
  ℕ, zero, suc, ◌+◌, ◌*◌, ◌/◌, ◌%◌, ◌==◌, ltb, if◌then◌else◌, Option, none, some, List, [], ◌∷◌,
}

abbrev pub Memory : Type 0
Memory = ℕ → ℕ

-- `*p = b` at a byte
unfoldable pub write_byte : Memory → ℕ → ℕ → Memory
write_byte m a b = λ q. if q == a then b else m q

-- `*(p as *const uN)` for a word of `n` bytes
unfoldable pub load : ℕ → Memory → ℕ → ℕ
load zero m a = 0
load (suc n) m a = m a % 256 + 256 * load n m (a + 1)

-- `*(p as *mut uN) = v` for a word of `n` bytes
unfoldable pub store : ℕ → Memory → ℕ → ℕ → Memory
unfolding write_byte
store zero m a v = m
store (suc n) m a v = write_byte (store n m (a + 1) (v / 256)) a (v % 256)

-- a slice of `n` bytes
unfoldable pub load_bytes : ℕ → Memory → ℕ → List ℕ
load_bytes zero m a = []
load_bytes (suc n) m a = m a ∷ load_bytes n m (a + 1)

-- `copy_from_slice` into memory
unfoldable pub store_bytes : Memory → ℕ → List ℕ → Memory
unfolding write_byte
store_bytes m a [] = m
store_bytes m a (b ∷ bs) = store_bytes (write_byte m a b) (a + 1) bs

-- A slice as its pointer and its length: `bytes` is what the pointer leads to, from 0 on. Indexing
-- is checked against the length; `as_ptr` is not.
pub record Slice : Type 0 where
  pub bytes : Memory
  pub len : ℕ

-- `slice[i]`; `none` is the panic.
abbrev pub index_slice : Slice → ℕ → Option ℕ
index_slice s i = if ltb i s.len then some (s.bytes i % 256) else none

-- `slice[i] = b`; `none` is the panic.
unfoldable pub set_slice : Slice → ℕ → ℕ → Option Slice
unfolding write_byte
set_slice s i b = if ltb i s.len then some (record s { bytes = write_byte s.bytes i b }) else none
