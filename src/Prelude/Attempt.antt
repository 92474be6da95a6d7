-- ===== src/Prelude/Attempt.antt =====
-- Code that can hand on an error with `?` and can panic.
use uhyve.Prelude.{Bool, Option, false, none, some, true}

-- A value, an error that is handed on, or a panic.
pub data Attempt (A : Type 0) : Type 0 where
  makes : A → Attempt A
  refuses : Attempt A
  crashes : Attempt A

infixl 5 ◌>>=◌
abbrev pub ◌>>=◌ : {A B : Type 0} → Attempt A → (A → Attempt B) → Attempt B
makes a >>= f = f a
refuses >>= f = refuses
crashes >>= f = crashes

infixl 5 ◌>>◌
abbrev pub ◌>>◌ : {A B : Type 0} → Attempt A → Attempt B → Attempt B
m >> n = m >>= λ _. n

-- `?`
abbrev pub try_call : Bool → Attempt (Unit {0})
try_call true = makes tt
try_call false = refuses

-- `unwrap()`, `expect()` and `assert!`
abbrev pub expect : Bool → Attempt (Unit {0})
expect true = makes tt
expect false = crashes

abbrev pub unwrap : {A : Type 0} → Option A → Attempt A
unwrap none = crashes
unwrap (some a) = makes a

abbrev pub is_none : {A : Type 0} → Option A → Bool
is_none none = true
is_none (some a) = false
