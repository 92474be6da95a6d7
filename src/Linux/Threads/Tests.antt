-- ===== src/Linux/Threads/Tests.antt =====
-- Runs of the threads of linux/mod.rs.
use uhyve.Prelude.{List, [], arith, get_elem?, refl, some, suc, true, zero, ℕ, ◌∷◌, ◌≡◌, ◌≢◌, false}
use uhyve.Linux.Threads.Barrier.{Reach-returned, Reach-aborted}
use uhyve.Linux.Threads.Halts.{IsHalted, Reach-IsHalted}
use uhyve.Linux.Threads.{
  has_panicked, ThreadState, spinning, entered, panicked, ended, codes, all_done, MainState,
  kicking, aborted, returned, Waiter, nobody, Run, start, create, fail, enter, release, main_waits,
  main_joins, join_panics, join_failed, Reach, here, next, join,
}

abbrev state : List ThreadState → Waiter → MainState → Run
state threads barrier main = record {
  threads = threads;
  barrier = barrier;
  main = main;
  cpu_online = 0;
}

-- One CPU exits with the code 7.
exits : Reach (start 1) (state (ended (some 7) ∷ []) nobody (returned 7))
unfolding start codes join
exits =
    next
      (next (next (next (next here (create 0 refl)) (enter 0 refl refl)) (main_waits refl refl))
        (release 0 7 refl refl))
      (main_joins refl refl refl)

Reach-returned_example :
    (all_done (ended (some 7) ∷ []) ≡ true)
    × (has_panicked (ended (some 7) ∷ []) ≡ false)
    × (codes (ended (some 7) ∷ []) ≡ 7 ∷ [])
Reach-returned_example = Reach-returned 1 7 exits refl

-- One CPU cannot be created, and the other exits: the main thread panics as it joins that thread.
fails_one : Reach (start 2) (state (ended (some 7) ∷ panicked ∷ []) nobody join_failed)
unfolding start codes join
fails_one =
    next
      (next
        (next (next (next (next here (create 0 refl)) (fail 1 refl)) (enter 0 refl refl))
          (main_waits refl refl))
        (release 0 7 refl refl))
      (join_panics 1 refl refl refl)

Reach-aborted_example : (state (ended (some 7) ∷ panicked ∷ []) nobody join_failed).main ≢ aborted
Reach-aborted_example = Reach-aborted 2 (omega arith) fails_one

-- A guest on two CPUs exits on the first before it has brought the second online.
abbrev early : Run
early = state (ended (some 7) ∷ spinning ∷ []) nobody kicking

early_is_reached : Reach (start 2) early
unfolding start
early_is_reached =
    next
      (next (next (next (next here (create 0 refl)) (create 1 refl)) (enter 0 refl refl))
        (main_waits refl refl))
      (release 0 7 refl refl)

none_runs : (i : ℕ) → get_elem? early.threads i ≢ some entered
none_runs zero e = cc e
none_runs (suc zero) e = cc e
none_runs (suc (suc i)) e = cc e

early-IsHalted : IsHalted 1 early
early-IsHalted = record {
  spins = refl;
  none_runs = none_runs;
  turn_created = λ e. cc e;
  turn_spinning = λ e. cc e;
  not_returned = λ code e. cc e;
  not_aborted = λ e. cc e;
}

Reach-IsHalted_example :
    IsHalted 1 early × ((code : ℕ) → early.main ≢ returned code) × (early.main ≢ aborted)
Reach-IsHalted_example = Reach-IsHalted 1 early-IsHalted here
