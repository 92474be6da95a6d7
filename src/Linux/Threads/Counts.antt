-- ===== src/Linux/Threads/Counts.antt =====
-- Threads by their number, and the codes among them.
use uhyve.Prelude.{
  List, [], and_true, ap, arith, get_elem?, length, refl, set, some, suc, true, zero, ℕ, ◌+◌, ◌∷◌,
  ◌≡◌, ◌≢◌, ◌≤◌, length-append, none,
}
use uhyve.Linux.Threads.{
  ThreadState, creating, spinning, entered, panicked, at_barrier, ended, codes, code_of, all_done,
  is_done,
}

pub get_elem?-set_present :
    (ts : List ThreadState) (i : ℕ) (new : ThreadState) {old : ThreadState}
    → get_elem? ts i ≡ some old
    → get_elem? (set ts i new) i ≡ some new
get_elem?-set_present [] i new h = cc
get_elem?-set_present (t ∷ ts) zero new h = refl
get_elem?-set_present (t ∷ ts) (suc i) new h = get_elem?-set_present ts i new h

-- Threads in different states are different threads.
pub other_thread :
    (ts : List ThreadState) (i j : ℕ) {a b : ThreadState}
    → get_elem? ts i ≡ some a
    → get_elem? ts j ≡ some b
    → a ≢ b
    → i ≢ j
other_thread ts i j {a} {b} hi hj differ e = differ (cc (hi, hj, ap (get_elem? ts) e))

pub all_done-get_elem? :
    (ts : List ThreadState) (i : ℕ) {t : ThreadState}
    → all_done ts ≡ true
    → get_elem? ts i ≡ some t
    → is_done t ≡ true
all_done-get_elem? [] i done h = cc
all_done-get_elem? (u ∷ ts) zero done h =
    let first = (and_true (is_done u) (all_done ts) done).0 in ground (arith, first)
all_done-get_elem? (u ∷ ts) (suc i) done h =
    all_done-get_elem? ts i (and_true (is_done u) (all_done ts) done).1 h

pub length-codes-set :
    (ts : List ThreadState) (i : ℕ) (new : ThreadState) {old : ThreadState}
    → get_elem? ts i ≡ some old
    → length (codes (set ts i new)) + length (code_of old)
      ≡ length (codes ts) + length (code_of new)
unfolding codes
length-codes-set [] i new h = cc
length-codes-set (t ∷ ts) zero new {old} h =
    let same : length (code_of t) ≡ length (code_of old) = cc h in
    omega
      (arith, length-append (code_of new) (codes ts), length-append (code_of t) (codes ts), same)
length-codes-set (t ∷ ts) (suc i) new h = omega (
  arith,
  length-append (code_of t) (codes (set ts i new)),
  length-append (code_of t) (codes ts),
  length-codes-set ts i new h,
)

length-code_of-le : (t : ThreadState) → length (code_of t) ≤ 1
length-code_of-le creating = omega arith
length-code_of-le spinning = omega arith
length-code_of-le entered = omega arith
length-code_of-le panicked = omega arith
length-code_of-le (at_barrier code) = omega arith
length-code_of-le (ended none) = omega arith
length-code_of-le (ended (some code)) = omega arith

pub length-codes-le : (ts : List ThreadState) → length (codes ts) ≤ length ts
unfolding codes
length-codes-le [] = omega arith
length-codes-le (t ∷ ts) =
    omega (arith, length-append (code_of t) (codes ts), length-code_of-le t, length-codes-le ts)
