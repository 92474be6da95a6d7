-- ===== src/Linux/Threads/Barrier.antt =====
-- How many codes there are when the main thread goes on: the barrier lets two through at a time.
use uhyve.Prelude.{
  List, [], ap, arith, false, get_elem?, inl, inr, length, length-set, refl, set, some, true, ℕ,
  ◌%◌, ◌+◌, ◌∙◌, ◌∷◌, ◌≡◌, ◌≢◌, ◌≤◌, ◌⊎◌, get_elem?-set_ne, none, replicate, subst, suc, zero,
}
use uhyve.Linux.Threads.Counts.{all_done-get_elem?, length-codes-set, length-codes-le, other_thread}
use uhyve.Linux.Threads.{
  has_panicked, crash, kick_fails, kick_failed, join_panics, join_failed, ThreadState, codes,
  code_of, all_done, is_done, join, only_code, MainState, starting, waiting, kicking, aborted,
  returned, main_thread, Run, Reach, Step, at_barrier, count, create, creating, ended, enter,
  entered, fail, here, main_joins, main_meets, main_waits, next, pair, panicked, release, spinning,
  start, stop, wait,
}

-- What holds of the codes, by how far the main thread is.
abbrev Counted : MainState → List ThreadState → Type 0
Counted starting ts = length (codes ts) % 2 ≡ 0
Counted waiting ts = length (codes ts) % 2 ≡ 0
Counted kicking ts = length (codes ts) % 2 ≡ 1
Counted (returned code) ts =
    (all_done ts ≡ true) × (has_panicked ts ≡ false) × (codes ts ≡ code ∷ [])
Counted kick_failed ts = Unit {0}
Counted join_failed ts = Unit {0}
Counted aborted ts = (all_done ts ≡ true) × (3 ≤ length (codes ts))

record IsCounted (n : ℕ) (s : Run) : Type 0 where
  size : length s.threads ≡ n
  counted : Counted s.main s.threads
  at_main : s.barrier ≡ main_thread → s.main ≡ waiting

-- A thread that is not done changes and adds an even number of codes.
Counted-change :
    (m : MainState) (ts ts' : List ThreadState) (i : ℕ) {old : ThreadState}
    → get_elem? ts i ≡ some old
    → is_done old ≡ false
    → (length (codes ts') ≡ length (codes ts)) ⊎ (length (codes ts') ≡ length (codes ts) + 2)
    → Counted m ts
    → Counted m ts'
Counted-change starting ts ts' i h busy more c = ground arith
Counted-change waiting ts ts' i h busy more c = ground arith
Counted-change kicking ts ts' i h busy more c = ground arith
Counted-change (returned code) ts ts' i h busy more c = cc (all_done-get_elem? ts i c.0 h, busy)
Counted-change kick_failed ts ts' i h busy more c = tt
Counted-change join_failed ts ts' i h busy more c = tt
Counted-change aborted ts ts' i h busy more c = cc (all_done-get_elem? ts i c.0 h, busy)

-- A step of one thread that gives no code.
set_thread-IsCounted :
    {n : ℕ} {s : Run} (i : ℕ) (new : ThreadState) {old : ThreadState}
    → get_elem? s.threads i ≡ some old
    → is_done old ≡ false
    → length (code_of old) ≡ 0
    → length (code_of new) ≡ 0
    → IsCounted n s
    → IsCounted n (record s { threads = set s.threads i new })
set_thread-IsCounted {s} i new h busy none_old none_new c = record {
  size = length-set s.threads i new ∙ c.size;
  counted =
      Counted-change s.main s.threads (set s.threads i new) i h busy
        (inl (omega (arith, length-codes-set s.threads i new h, none_old, none_new))) c.counted;
  at_main = c.at_main;
}

only_code-Counted :
    (ts : List ThreadState) (cs : List ℕ)
    → codes ts ≡ cs
    → all_done ts ≡ true
    → has_panicked ts ≡ false
    → length cs % 2 ≡ 1
    → Counted (only_code cs) ts
only_code-Counted ts [] e done unpanicked odd = absurd (omega (arith, odd))
only_code-Counted ts (code ∷ []) e done unpanicked odd = (done, unpanicked, e)
only_code-Counted ts (code ∷ other ∷ []) e done unpanicked odd = absurd (omega (arith, odd))
only_code-Counted ts (code ∷ other ∷ third ∷ rest) e done unpanicked odd =
    (done, omega (arith, ap length e))

join-Counted :
    (ts : List ThreadState)
    → all_done ts ≡ true
    → has_panicked ts ≡ false
    → length (codes ts) % 2 ≡ 1
    → Counted (join ts) ts
unfolding join
join-Counted ts done unpanicked odd = only_code-Counted ts (codes ts) refl done unpanicked odd

Step-IsCounted : {n : ℕ} {s t : Run} → Step s t → IsCounted n s → IsCounted n t
Step-IsCounted (create i h) c = set_thread-IsCounted i spinning h refl refl refl c
Step-IsCounted (fail i h) c = set_thread-IsCounted i panicked h refl refl refl c
Step-IsCounted (enter i h turn) c = set_thread-IsCounted i entered h refl refl refl c
Step-IsCounted (count i h) c = record { size = c.size; counted = c.counted; at_main = c.at_main }
Step-IsCounted (stop i h) c = set_thread-IsCounted i (ended none) h refl refl refl c
Step-IsCounted (crash i h) c = set_thread-IsCounted i panicked h refl refl refl c
Step-IsCounted {s} (kick_fails i kicks h done) c = record {
  size = c.size;
  counted = tt;
  at_main = λ e. cc (c.at_main e, kicks);
}
Step-IsCounted {s} (join_panics i kicks h before) c = record {
  size = c.size;
  counted = tt;
  at_main = λ e. cc (c.at_main e, kicks);
}
Step-IsCounted (wait i code h free) c =
    let c' = set_thread-IsCounted i (at_barrier code) h refl refl refl c in
    record { size = c'.size; counted = c'.counted; at_main = λ e. cc e }
Step-IsCounted {s} (release i code h at_main) c =
    let new = ended (some code) in
    let even = subst (λ (m : MainState). Counted m s.threads) (c.at_main at_main) c.counted in
    record {
      size = length-set s.threads i new ∙ c.size;
      counted = omega (arith, even, length-codes-set s.threads i new h);
      at_main = λ e. cc e;
    }
Step-IsCounted {s} (pair i code j other h at_thread hj) c =
    let ts = set s.threads j (ended (some other)) in
    let differ = other_thread s.threads j i hj h (λ e. cc e) in
    let h' = get_elem?-set_ne s.threads (ended (some other)) differ ∙ h in
    let first = length-codes-set s.threads j (ended (some other)) hj in
    let second = length-codes-set ts i (ended (some code)) h' in
    record {
      size =
          length-set ts i (ended (some code))
          ∙ (length-set s.threads j (ended (some other)) ∙ c.size);
      counted =
          Counted-change s.main s.threads (set ts i (ended (some code))) i h refl
            (inr (omega (arith, first, second))) c.counted;
      at_main = λ e. cc e;
    }
Step-IsCounted {s} (main_waits at_start free) c = record {
  size = c.size;
  counted = subst (λ (m : MainState). Counted m s.threads) at_start c.counted;
  at_main = λ e. refl;
}
Step-IsCounted {s} (main_meets j code at_start at_thread h) c =
    let new = ended (some code) in
    let even = subst (λ (m : MainState). Counted m s.threads) at_start c.counted in
    record {
      size = length-set s.threads j new ∙ c.size;
      counted = omega (arith, even, length-codes-set s.threads j new h);
      at_main = λ e. cc e;
    }
Step-IsCounted {s} (main_joins kicks done unpanicked) c =
    let odd = subst (λ (m : MainState). Counted m s.threads) kicks c.counted in
    record {
      size = c.size;
      counted = join-Counted s.threads done unpanicked odd;
      at_main = λ e. cc (c.at_main e, kicks);
    }

no_codes :
    (n : ℕ) → (length (codes (replicate n creating)) ≡ 0) × (length (replicate n creating) ≡ n)
unfolding codes
no_codes zero = (refl, refl)
no_codes (suc n) = let (none_yet, size) = no_codes n in (none_yet, omega (arith, size))

Reach-IsCounted : {n : ℕ} {s : Run} → Reach (start n) s → IsCounted n s
unfolding start
Reach-IsCounted {n} here =
    let (none_yet, size) = no_codes n in
    record { size = size; counted = omega (arith, none_yet); at_main = λ e. cc e }
Reach-IsCounted (next r st) = Step-IsCounted st (Reach-IsCounted r)

-- However the threads run, when the program ends with a code, every thread has ended, none by a panic,
-- and exactly one of them brought a code, which is that one.
pub Reach-returned :
    (n : ℕ) {s : Run} (code : ℕ)
    → Reach (start n) s
    → s.main ≡ returned code
    → (all_done s.threads ≡ true) × (has_panicked s.threads ≡ false) × (codes s.threads ≡ code ∷ [])
Reach-returned n {s} code r e =
    subst (λ (m : MainState). Counted m s.threads) e (Reach-IsCounted r).counted

-- With one or two CPUs the assertion that exactly one thread brought a code never fails, however the
-- threads run.
pub Reach-aborted : (n : ℕ) {s : Run} → n ≤ 2 → Reach (start n) s → s.main ≢ aborted
Reach-aborted n {s} few r e =
    let c = Reach-IsCounted r in
    let (_, many) = subst (λ (m : MainState). Counted m s.threads) e c.counted in
    omega (arith, many, length-codes-le s.threads, c.size, few)
