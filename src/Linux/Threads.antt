-- ===== src/Linux/Threads.antt =====
-- src/linux/mod.rs, `run_no_gdb`: a thread for each CPU, the barrier at which the main thread waits for
-- one of them, and the end of the program. The steps of the threads come in any order.
use uhyve.Linux.KvmVm.{cpu_online}
use uhyve.Prelude.{
  Bool, List, Option, [], false, get_elem?, if◌then◌else◌, none, replicate, set, take, some, true,
  ℕ, ◌&&◌, ◌++◌, ◌+◌, ◌∷◌, ◌≡◌,
}
pub mod Counts
pub mod Barrier
pub mod Halts
mod Tests

-- A CPU is created and set up, waits for its turn to start, runs the guest, waits at the barrier with
-- the guest's code, and ends with that code or with none. A failed `unwrap` is a panic.
pub data ThreadState : Type 0 where
  creating spinning entered panicked : ThreadState
  at_barrier : (code : ℕ) → ThreadState
  ended : Option ℕ → ThreadState

-- Who waits at the barrier of two.
pub data Waiter : Type 0 where
  nobody main_thread : Waiter
  cpu_thread : (cpu_id : ℕ) → Waiter

pub data MainState : Type 0 where
  starting waiting kicking kick_failed join_failed aborted : MainState
  returned : (code : ℕ) → MainState

-- `cpu_online` is the counter in the boot information, which the guest's CPUs count up.
pub record Run : Type 0 where
  pub threads : List ThreadState
  pub barrier : Waiter
  pub main : MainState
  pub cpu_online : ℕ

unfoldable pub start : (num_cpus : ℕ) → Run
start num_cpus = record {
  threads = replicate num_cpus creating;
  barrier = nobody;
  main = starting;
  cpu_online = 0;
}

-- A thread that `join` does not wait for.
abbrev pub is_done : ThreadState → Bool
is_done (ended code) = true
is_done panicked = true
is_done creating = false
is_done spinning = false
is_done entered = false
is_done (at_barrier code) = false

abbrev pub all_done : List ThreadState → Bool
all_done [] = true
all_done (t ∷ ts) = is_done t && all_done ts

abbrev pub has_panicked : List ThreadState → Bool
has_panicked [] = false
has_panicked (panicked ∷ ts) = true
has_panicked (creating ∷ ts) = has_panicked ts
has_panicked (spinning ∷ ts) = has_panicked ts
has_panicked (entered ∷ ts) = has_panicked ts
has_panicked (at_barrier code ∷ ts) = has_panicked ts
has_panicked (ended code ∷ ts) = has_panicked ts

-- `filter_map(|thread| thread.join().unwrap())`
abbrev pub code_of : ThreadState → List ℕ
code_of (ended (some code)) = code ∷ []
code_of (ended none) = []
code_of creating = []
code_of spinning = []
code_of entered = []
code_of panicked = []
code_of (at_barrier code) = []

unfoldable pub codes : List ThreadState → List ℕ
codes [] = []
codes (t ∷ ts) = code_of t ++ codes ts

-- `assert_eq!(1, code.len())` and `code[0]`
abbrev pub only_code : List ℕ → MainState
only_code [] = aborted
only_code (code ∷ []) = returned code
only_code (code ∷ other ∷ rest) = aborted

unfoldable pub join : List ThreadState → MainState
unfolding codes
join ts = only_code (codes ts)

abbrev pub set_thread : Run → ℕ → ThreadState → Run
set_thread s i t = record s { threads = set s.threads i t }

-- One step of a thread or of the main thread.
pub data Step (s : Run) : Run → Type 0 where
  -- `create_cpu` and `init`
  create : (i : ℕ) → get_elem? s.threads i ≡ some creating → Step s (set_thread s i spinning)
  fail : (i : ℕ) → get_elem? s.threads i ≡ some creating → Step s (set_thread s i panicked)
  -- `while cpu_id != vm.cpu_online()`
  enter :
      (i : ℕ)
      → get_elem? s.threads i ≡ some spinning
      → s.cpu_online ≡ i
      → Step s (set_thread s i entered)
  -- the guest, on a CPU that runs
  count :
      (i : ℕ)
      → get_elem? s.threads i ≡ some entered
      → Step s (record s { cpu_online = s.cpu_online + 1 })
  -- `run` gives no code: a kick, or an error
  stop : (i : ℕ) → get_elem? s.threads i ≡ some entered → Step s (set_thread s i (ended none))
  -- `run` panics
  crash : (i : ℕ) → get_elem? s.threads i ≡ some entered → Step s (set_thread s i panicked)
  -- `run` gives a code, and the thread waits at the barrier: alone, ...
  wait :
      (i code : ℕ)
      → get_elem? s.threads i ≡ some entered
      → s.barrier ≡ nobody
      → Step s (record (set_thread s i (at_barrier code)) { barrier = cpu_thread i })
  -- ... together with the main thread, ...
  release :
      (i code : ℕ)
      → get_elem? s.threads i ≡ some entered
      → s.barrier ≡ main_thread
      → Step s (record (set_thread s i (ended (some code))) { barrier = nobody; main = kicking })
  -- ... or together with another CPU's thread.
  pair :
      (i code j other : ℕ)
      → get_elem? s.threads i ≡ some entered
      → s.barrier ≡ cpu_thread j
      → get_elem? s.threads j ≡ some (at_barrier other)
      → Step s (record (set_thread (set_thread s j (ended (some other))) i (ended (some code))) {
        barrier = nobody;
      })
  -- `barrier.wait()` of the main thread
  main_waits :
      s.main ≡ starting
      → s.barrier ≡ nobody
      → Step s (record s { main = waiting; barrier = main_thread })
  main_meets :
      (j code : ℕ)
      → s.main ≡ starting
      → s.barrier ≡ cpu_thread j
      → get_elem? s.threads j ≡ some (at_barrier code)
      → Step s (record (set_thread s j (ended (some code))) { main = kicking; barrier = nobody })
  -- `pthread_kill(...).unwrap()` panics on a thread that has ended
  kick_fails :
      (i : ℕ) {t : ThreadState}
      → s.main ≡ kicking
      → get_elem? s.threads i ≡ some t
      → is_done t ≡ true
      → Step s (record s { main = kick_failed })
  -- the threads are joined in order: `join().unwrap()` panics at the first that has panicked, ...
  join_panics :
      (i : ℕ)
      → s.main ≡ kicking
      → get_elem? s.threads i ≡ some panicked
      → all_done (take i s.threads) ≡ true
      → Step s (record s { main = join_failed })
  -- ... and if none has, all have ended and the codes are counted
  main_joins :
      s.main ≡ kicking
      → all_done s.threads ≡ true
      → has_panicked s.threads ≡ false
      → Step s (record s { main = join s.threads })

pub data Reach (s : Run) : Run → Type 0 where
  here : Reach s s
  next : {t u : Run} → Reach s t → Step t u → Reach s u
