-- ===== src/Vm/Arguments.antt =====
-- src/vm.rs, `cmdsize` and `cmdval`: the command line and the environment of the hypervisor, handed
-- to the guest. A string is the list of its bytes; the environment is a list of keys and values.
use uhyve.Prelude.{
  Bool, List, Option, [], false, if◌then◌else◌, leb, length, ltb, none, not, some, true, ℕ, ◌%◌,
  ◌&&◌, ◌*◌, ◌++◌, ◌+◌, ◌-◌, ◌==◌, ◌^◌, ◌∷◌, ◌>>=◌,
}
pub mod Scan
pub mod Sizes
pub mod Values
mod Tests
use uhyve.Memory.{Memory, load, store, store_bytes}
use uhyve.Linux.Vcpu.Translate.{host_address}

abbrev pub max_argc : ℕ
max_argc = 128

abbrev pub max_envc : ℕ
max_envc = 128

abbrev pub eq_bytes : List ℕ → List ℕ → Bool
eq_bytes [] [] = true
eq_bytes [] (y ∷ ys) = false
eq_bytes (x ∷ xs) [] = false
eq_bytes (x ∷ xs) (y ∷ ys) = (x == y) && eq_bytes xs ys

abbrev pub dashes : List ℕ
dashes = 45 ∷ 45 ∷ []

-- The variables of the loops over `std::env::args()`.
pub record Scanning : Type 0 where
  pub counter : ℕ
  pub separator_pos : ℕ
  pub found_separator : Bool

abbrev pub start : Scanning
start = record { counter = 0; separator_pos = 0; found_separator = false }

-- `if !found_separator && argument == "--" { ... }`
unfoldable pub see : List ℕ → Scanning → Scanning
see argument s =
    if not s.found_separator && eq_bytes argument dashes
    then record s { separator_pos = s.counter + 1; found_separator = true }
    else s

abbrev pub is_application : Scanning → Bool
is_application s = s.found_separator && leb s.separator_pos s.counter

abbrev pub advance : Scanning → Scanning
advance s = record s { counter = s.counter + 1 }

-- `argsz[(counter - separator_pos + 1) xs usize] = argument.len() xs i32 + 1`; `none` is the panic
-- of an index out of range. `argsz` lies at 4 in `SysCmdsize`.
unfoldable pub put_argsz : Memory → ℕ → Scanning → List ℕ → Option Memory
put_argsz m args_ptr s argument =
    let i = s.counter - s.separator_pos + 1 in
    if ltb i max_argc
    then some (store 4 m (args_ptr + 4 + 4 * i) ((length argument + 1) % 2 ^ 32))
    else none

unfoldable pub put_argszs : Memory → ℕ → List (List ℕ) → Scanning → Option (Memory × Scanning)
unfolding see put_argsz
put_argszs m args_ptr [] s = some (m, s)
put_argszs m args_ptr (argument ∷ arguments) s = do
  let s' = see argument s
  m' ← if is_application s' then put_argsz m args_ptr s' argument else some m
  put_argszs m' args_ptr arguments (advance s')

-- The loop over `std::env::vars()`, with `counter` put already; `envsz` lies at 520.
unfoldable pub put_envszs : Memory → ℕ → List (List ℕ × List ℕ) → ℕ → Memory × ℕ
put_envszs m args_ptr [] counter = (m, counter)
put_envszs m args_ptr ((key, value) ∷ vars) counter =
    let size = (length key + length value + 2) % 2 ^ 32 in
    let m' = store 4 m (args_ptr + 520 + 4 * counter) size in
    let more = put_envszs m' args_ptr vars (counter + 1) in
    let same = put_envszs m args_ptr vars counter in if ltb counter max_envc then more else same

-- `SysCmdsize`: `argc` at 0, `argsz` at 4, `envc` at 516, `envsz` at 520
unfoldable pub cmdsize :
    (path : List ℕ) → List (List ℕ) → List (List ℕ × List ℕ) → Memory → ℕ → Option Memory
unfolding put_argszs put_envszs
cmdsize path arguments vars m args_ptr = do
  let m1 = store 4 (store 4 m args_ptr 0) (args_ptr + 516) 0
  let m2 = store 4 m1 (args_ptr + 4) ((length path + 1) % 2 ^ 32)
  (m3, s) ← put_argszs m2 args_ptr arguments start
  let argc = if is_application s then (s.counter - s.separator_pos + 1) % 2 ^ 32 else 1
  let m4 = store 4 m3 args_ptr argc
  let (m5, envc) = put_envszs m4 args_ptr vars 0
  some (store 4 m5 (args_ptr + 516) envc)

module _ (vm_start : ℕ) where
  -- The bytes of a string go to where entry `i` of the table of pointers leads.
  unfoldable pub put_string : Memory → ℕ → ℕ → List ℕ → Memory
  unfolding host_address
  put_string m table i bytes =
      store_bytes m (host_address vm_start (load 8 m (table + 8 * i))) bytes

  unfoldable pub put_arguments : Memory → ℕ → List (List ℕ) → Scanning → Memory
  unfolding see put_string
  put_arguments m argv [] s = m
  put_arguments m argv (argument ∷ arguments) s =
      let s' = see argument s in
      let put = put_string m argv (s'.counter - s'.separator_pos + 1) (argument ++ 0 ∷ []) in
      put_arguments (if is_application s' then put else m) argv arguments (advance s')

  unfoldable pub put_vars : Memory → ℕ → List (List ℕ × List ℕ) → ℕ → Memory
  unfolding put_string
  put_vars m envp [] counter = m
  put_vars m envp ((key, value) ∷ vars) counter =
      let put = put_string m envp counter (key ++ 61 ∷ value ++ 0 ∷ []) in
      let more = put_vars put envp vars (counter + 1) in
      let same = put_vars m envp vars counter in if ltb counter max_envc then more else same

  -- `SysCmdval`: `argv` at 0, `envp` at 8
  unfoldable pub cmdval :
      (path : List ℕ) → List (List ℕ) → List (List ℕ × List ℕ) → Memory → ℕ → Memory
  unfolding put_arguments put_vars host_address
  cmdval path arguments vars m args_ptr =
      let argv = host_address vm_start (load 8 m args_ptr) in
      let m1 = put_string m argv 0 (path ++ 0 ∷ []) in
      let m2 = put_arguments m1 argv arguments start in
      let envp = host_address vm_start (load 8 m2 (args_ptr + 8)) in put_vars m2 envp vars 0
