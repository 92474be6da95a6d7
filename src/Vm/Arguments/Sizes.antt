-- ===== src/Vm/Arguments/Sizes.antt =====
-- What `cmdsize` leaves in the guest's structure.
use uhyve.Prelude.{
  List, [], arith, false, get_or, length, ltb, map, refl, suc, take, true, zero, ℕ, ◌%◌, ◌*◌, ◌+◌,
  ◌<◌, ◌^◌, ◌∙◌, ◌∷◌, ◌≡◌, ◌≤◌, Option, ap, ap₂, inr, some, ◌>>=◌, inl, length-map, length-take,
  get_or-map,
}
use uhyve.Memory.{Memory, load, store}
use uhyve.Memory.Laws.{Apart, load_same, load-store, store_outside, load-store-Apart}
use uhyve.Vm.Arguments.{put_envszs, cmdsize, max_envc, max_argc, Scanning}
use uhyve.Vm.Arguments.Scan.{after_separator, store_words, size_of, put_argszs_lem, argc_of}

store_words_outside :
    (m : Memory) (base : ℕ) (vs : List ℕ) (q : ℕ)
    → Apart base (4 * length vs) q 1
    → store_words m base vs q ≡ m q
unfolding store_words
store_words_outside m base [] q away = refl
store_words_outside m base (v ∷ vs) q away =
    store_words_outside (store 4 m base v) (base + 4) vs q (grind arith)
    ∙ store_outside 4 m base v q (grind arith)

load-store_words :
    (m : Memory) (base : ℕ) (vs : List ℕ) (i : ℕ)
    → i < length vs
    → get_or vs i 0 < 2 ^ 32
    → load 4 (store_words m base vs) (base + 4 * i) ≡ get_or vs i 0
unfolding store_words
load-store_words m base [] i left small = absurd (omega arith)
load-store_words m base (v ∷ vs) zero left small =
    let at : base + 4 * 0 ≡ base = omega arith in
    rw at (
      load_same 4 _ (store 4 m base v) base
        (λ q p r. store_words_outside (store 4 m base v) (base + 4) vs q (inr (omega arith)))
      ∙ load-store 4 m base v small)
load-store_words m base (v ∷ vs) (suc i) left small =
    let at : base + 4 * suc i ≡ base + 4 + 4 * i = omega arith in
    rw at (load-store_words (store 4 m base v) (base + 4) vs i (omega arith) small)

abbrev pub Var : Type 0
Var = List ℕ × List ℕ

abbrev pub var_size : Var → ℕ
var_size v = (length v.0 + length v.1 + 2) % 2 ^ 32

put_envszs-full :
    (m : Memory) (args_ptr : ℕ) (vars : List Var) (counter : ℕ)
    → max_envc ≤ counter
    → put_envszs m args_ptr vars counter ≡ (m, counter)
unfolding put_envszs
put_envszs-full m args_ptr [] counter full = refl
put_envszs-full m args_ptr (v ∷ vars) counter full =
    let e = put_envszs-full m args_ptr vars counter full in
    let no_room : ltb counter max_envc ≡ false = ground arith in rw no_room e

put_envszs_lem :
    (m : Memory) (args_ptr : ℕ) (vars : List Var) (counter room : ℕ)
    → counter + room ≡ max_envc
    → put_envszs m args_ptr vars counter ≡ (
      store_words m (args_ptr + 520 + 4 * counter) (map var_size (take room vars)),
      counter + length (take room vars),
    )
unfolding put_envszs store_words
put_envszs_lem m args_ptr [] counter zero e =
    let sum : counter + 0 ≡ counter = omega arith in rw sum refl
put_envszs_lem m args_ptr [] counter (suc room) e =
    let sum : counter + 0 ≡ counter = omega arith in rw sum refl
put_envszs_lem m args_ptr (v ∷ vars) counter zero e =
    let sum : counter + 0 ≡ counter = omega arith in
    put_envszs-full m args_ptr (v ∷ vars) counter (omega arith) ∙ rw sum refl
put_envszs_lem m args_ptr (v ∷ vars) counter (suc room) e =
    let base = args_ptr + 520 + 4 * counter in
    let m' = store 4 m base (var_size v) in
    let has_room : ltb counter max_envc ≡ true = ground arith in
    let step : put_envszs m args_ptr (v ∷ vars) counter
        ≡ put_envszs m' args_ptr vars (counter + 1) =
      rw has_room refl in
    let at : args_ptr + 520 + 4 * (counter + 1) ≡ base + 4 = omega arith in
    let rest = take room vars in
    let sum : counter + 1 + length rest ≡ counter + suc (length rest) = omega arith in
    step
    ∙ put_envszs_lem m' args_ptr vars (counter + 1) room (omega arith)
    ∙ ap₂ (λ (b n : ℕ). (store_words m' b (map var_size rest), n)) at sum

-- The sizes that the guest finds, and that no byte but theirs is changed: `argc` and the sizes of the
-- path and the arguments lie at the start, `envc` and the sizes of the variables from 516 on.
pub record IsSized (m m' : Memory) (args_ptr : ℕ) (path : List ℕ) (application : List (List ℕ))
    (vars : List Var) : Type 0 where
  pub argc : load 4 m' args_ptr ≡ length application + 1
  pub path_size : load 4 m' (args_ptr + 4) ≡ size_of path
  pub sizes :
      (i : ℕ)
      → i < length application
      → load 4 m' (args_ptr + 8 + 4 * i) ≡ size_of (get_or application i [])
  pub envc : load 4 m' (args_ptr + 516) ≡ length vars
  pub env_sizes :
      (i : ℕ)
      → i < length vars
      → load 4 m' (args_ptr + 520 + 4 * i) ≡ var_size (get_or vars i ([], []))
  pub others :
      (q : ℕ)
      → Apart args_ptr (8 + 4 * length application) q 1
      → Apart (args_ptr + 516) (4 + 4 * length vars) q 1
      → m' q ≡ m q

-- The structure with everything written, in order.
abbrev stages : Memory → ℕ → List ℕ → List (List ℕ) → List Var → Memory
stages m args_ptr path application vars =
    let m1 = store 4 (store 4 m args_ptr 0) (args_ptr + 516) 0 in
    let m2 = store 4 m1 (args_ptr + 4) (size_of path) in
    let m3 = store_words m2 (args_ptr + 8) (map size_of application) in
    let m4 = store 4 m3 args_ptr (length application + 1) in
    let m5 = store_words m4 (args_ptr + 520) (map var_size vars) in
    store 4 m5 (args_ptr + 516) (length vars)

cmdsize-stages :
    (path : List ℕ) (arguments : List (List ℕ)) (vars : List Var) (m : Memory) (args_ptr : ℕ)
    → length (after_separator arguments) < max_argc
    → cmdsize path arguments vars m args_ptr
      ≡ some (stages m args_ptr path (after_separator arguments) (take max_envc vars))
unfolding cmdsize
cmdsize-stages path arguments vars m args_ptr room =
    let m1 = store 4 (store 4 m args_ptr 0) (args_ptr + 516) 0 in
    let m2 = store 4 m1 (args_ptr + 4) (size_of path) in
    let (s, loop, argc) = put_argszs_lem m2 args_ptr arguments 0 room in
    let m3 = store_words m2 (args_ptr + 8) (map size_of (after_separator arguments)) in
    let m4 = store 4 m3 args_ptr (length (after_separator arguments) + 1) in
    let env = put_envszs_lem m4 args_ptr vars 0 128 refl in
    let at : args_ptr + 520 + 4 * 0 ≡ args_ptr + 520 = omega arith in
    let n : 0 + length (take 128 vars) ≡ length (take 128 vars) = omega arith in
    ap
      (λ (r : Option (Memory × Scanning)). r >>= λ (m3, s).
        let (m5, envc) = put_envszs (store 4 m3 args_ptr (argc_of s)) args_ptr vars 0 in
        some (store 4 m5 (args_ptr + 516) envc))
      loop
    ∙ ap
        (λ (c : ℕ).
          let r = put_envszs (store 4 m3 args_ptr c) args_ptr vars 0 in
          some (store 4 r.0 (args_ptr + 516) r.1))
        argc
    ∙ ap (λ (r : Memory × ℕ). some (store 4 r.0 (args_ptr + 516) r.1)) env
    ∙ ap₂
        (λ (b n : ℕ).
          some (store 4 (store_words m4 b (map var_size (take 128 vars))) (args_ptr + 516) n))
        at n

load-store_words-Apart :
    (m : Memory) (base : ℕ) (vs : List ℕ) (a : ℕ)
    → Apart base (4 * length vs) a 4
    → load 4 (store_words m base vs) a ≡ load 4 m a
load-store_words-Apart m base vs a away =
    load_same 4 (store_words m base vs) m a
      (λ q p r. store_words_outside m base vs q (ground arith))

size_of-lt : (a : List ℕ) → size_of a < 2 ^ 32
size_of-lt a = omega arith

stages-IsSized :
    (path : List ℕ) (application : List (List ℕ)) (vars : List Var) (m : Memory) (args_ptr : ℕ)
    → length application < max_argc
    → length vars ≤ max_envc
    → IsSized m (stages m args_ptr path application vars) args_ptr path application vars
stages-IsSized path application vars m args_ptr room vars_room =
    let m1 = store 4 (store 4 m args_ptr 0) (args_ptr + 516) 0 in
    let m2 = store 4 m1 (args_ptr + 4) (size_of path) in
    let m3 = store_words m2 (args_ptr + 8) (map size_of application) in
    let m4 = store 4 m3 args_ptr (length application + 1) in
    let m5 = store_words m4 (args_ptr + 520) (map var_size vars) in
    let n_app = length-map application size_of in
    let n_vars = length-map vars var_size in
    let last = λ (a : ℕ). λ (away : Apart (args_ptr + 516) 4 a 4).
      load-store-Apart 4 4 m5 (args_ptr + 516) (length vars) a away in
    let upper = λ (a : ℕ). λ (low : a + 4 ≤ args_ptr + 516).
      last a (inr low)
      ∙ load-store_words-Apart m4 (args_ptr + 520) (map var_size vars) a (inr (omega arith)) in
    record {
      argc =
          upper args_ptr (omega arith)
          ∙ load-store 4 m3 args_ptr (length application + 1) (omega arith);
      path_size =
          upper (args_ptr + 4) (omega arith)
          ∙ load-store-Apart 4 4 m3 args_ptr (length application + 1) (args_ptr + 4)
              (inl (omega arith))
          ∙ load-store_words-Apart m2 (args_ptr + 8) (map size_of application) (args_ptr + 4)
              (inr (omega arith))
          ∙ load-store 4 m1 (args_ptr + 4) (size_of path) (size_of-lt path);
      sizes = λ i h.
          let got = get_or-map size_of application i [] 0 h in
          let small = size_of-lt (get_or application i []) in
          upper (args_ptr + 8 + 4 * i) (omega arith)
          ∙ load-store-Apart 4 4 m3 args_ptr (length application + 1) (args_ptr + 8 + 4 * i)
              (inl (omega arith))
          ∙ load-store_words m2 (args_ptr + 8) (map size_of application) i (omega (arith, n_app))
              (omega (arith, got, small))
          ∙ got;
      envc = load-store 4 m5 (args_ptr + 516) (length vars) (omega arith);
      env_sizes = λ i h.
          let got = get_or-map var_size vars i ([], []) 0 h in
          last (args_ptr + 520 + 4 * i) (inl (omega arith))
          ∙ load-store_words m4 (args_ptr + 520) (map var_size vars) i (omega (arith, n_vars))
              (omega (arith, got))
          ∙ got;
      others = λ q away away_env.
          store_outside 4 m5 (args_ptr + 516) (length vars) q (ground arith)
          ∙ store_words_outside m4 (args_ptr + 520) (map var_size vars) q (ground (arith, n_vars))
          ∙ store_outside 4 m3 args_ptr (length application + 1) q (ground arith)
          ∙ store_words_outside m2 (args_ptr + 8) (map size_of application) q
              (ground (arith, n_app))
          ∙ store_outside 4 m1 (args_ptr + 4) (size_of path) q (ground arith)
          ∙ store_outside 4 (store 4 m args_ptr 0) (args_ptr + 516) 0 q (ground arith)
          ∙ store_outside 4 m args_ptr 0 q (ground arith);
    }

-- `cmdsize` does not panic if there are fewer than 128 arguments behind the first `--`. The guest
-- finds their number and the path's, the size of each with its final zero, and the sizes of the
-- variables, of which those from the 129th on are dropped, all as words of 32 bits; no other byte
-- is changed.
pub cmdsize-IsSized :
    (path : List ℕ) (arguments : List (List ℕ)) (vars : List Var) (m : Memory) (args_ptr : ℕ)
    → length (after_separator arguments) < max_argc
    → (m' : Memory) × (cmdsize path arguments vars m args_ptr ≡ some m')
      × IsSized m m' args_ptr path (after_separator arguments) (take max_envc vars)
cmdsize-IsSized path arguments vars m args_ptr room =
    let application = after_separator arguments in
    (
      stages m args_ptr path application (take max_envc vars),
      cmdsize-stages path arguments vars m args_ptr room,
      stages-IsSized path application (take max_envc vars) m args_ptr room
          (omega (arith, length-take max_envc vars)),
    )
