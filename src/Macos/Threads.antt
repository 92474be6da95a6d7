-- ===== src/Macos/Threads.antt =====
-- src/macos/mod.rs, `run`: a thread for each CPU, and the channel through which the main thread gets
-- the first exit code. The steps of the threads come in any order.
use uhyve.Prelude.{List, Option, [], get_elem?, none, replicate, set, some, ℕ, ◌++◌, ◌+◌, ◌∷◌, ◌≡◌}
pub mod First
mod Tests

-- A CPU is created and set up, waits for its turn to start, runs the guest, and ends with the code
-- that `run` gave and that it has sent, or with none. A failed `unwrap` is a panic.
pub data ThreadState : Type 0 where
  creating spinning entered panicked : ThreadState
  sending : (code : ℕ) → ThreadState
  ended : Option ℕ → ThreadState

pub data MainState : Type 0 where
  receiving : MainState
  returned : (code : ℕ) → MainState

-- `channel` has the codes that are sent and not received, the oldest first.
pub record Run : Type 0 where
  pub threads : List ThreadState
  pub channel : List ℕ
  pub main : MainState
  pub cpu_online : ℕ

unfoldable pub start : (num_cpus : ℕ) → Run
start num_cpus = record {
  threads = replicate num_cpus creating;
  channel = [];
  main = receiving;
  cpu_online = 0;
}

abbrev pub set_thread : Run → ℕ → ThreadState → Run
set_thread s i t = record s { threads = set s.threads i t }

-- One step of a thread or of the main thread.
pub data Step (s : Run) : Run → Type 0 where
  -- `create_cpu` and `init`
  create : (i : ℕ) → get_elem? s.threads i ≡ some creating → Step s (set_thread s i spinning)
  fail : (i : ℕ) → get_elem? s.threads i ≡ some creating → Step s (set_thread s i panicked)
  -- `while cpu_id != vm.cpu_online()`
  enter :
      (i : ℕ)
      → get_elem? s.threads i ≡ some spinning
      → s.cpu_online ≡ i
      → Step s (set_thread s i entered)
  -- the guest, on a CPU that runs
  count :
      (i : ℕ)
      → get_elem? s.threads i ≡ some entered
      → Step s (record s { cpu_online = s.cpu_online + 1 })
  -- `Ok(None)` and `Err(err)`
  stop : (i : ℕ) → get_elem? s.threads i ≡ some entered → Step s (set_thread s i (ended none))
  -- `run` panics
  crash : (i : ℕ) → get_elem? s.threads i ≡ some entered → Step s (set_thread s i panicked)
  -- `run` returns `Ok(Some(code))`, ...
  exit :
      (i code : ℕ) → get_elem? s.threads i ≡ some entered → Step s (set_thread s i (sending code))
  -- ... and then `exit_tx.send(exit_code)`
  send :
      (i code : ℕ)
      → get_elem? s.threads i ≡ some (sending code)
      → Step s (record (set_thread s i (ended (some code))) { channel = s.channel ++ code ∷ [] })
  -- `exit_rx.recv()`
  receive :
      (code : ℕ) (rest : List ℕ)
      → s.main ≡ receiving
      → s.channel ≡ code ∷ rest
      → Step s (record s { main = returned code; channel = rest })

pub data Reach (s : Run) : Run → Type 0 where
  here : Reach s s
  next : {t u : Run} → Reach s t → Step t u → Reach s u
