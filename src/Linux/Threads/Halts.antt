-- ===== src/Linux/Threads/Halts.antt =====
-- When the main thread waits for ever.
use uhyve.Linux.KvmVm.{new}
use uhyve.Prelude.{
  get_elem?, get_elem?-set_ne, set, some, sym, ℕ, ◌∙◌, ◌≡◌, ◌≢◌, List, [], ap, inl, inr, refl,
  subst, suc, true, zero, ◌∷◌, ◌⊎◌,
}
use uhyve.Linux.Threads.Counts.{other_thread, all_done-get_elem?}
use uhyve.Linux.Threads.{
  crash, kick_fails, join_panics, ThreadState, creating, spinning, entered, panicked, ended,
  all_done, waiting, aborted, returned, Run, Step, create, fail, enter, count, stop, wait, release,
  pair, main_waits, main_meets, main_joins, Reach, here, next,
}

-- CPU `j` waits for its turn, no CPU runs the guest, and the CPU whose turn it is has ended.
pub record IsHalted (j : ℕ) (s : Run) : Type 0 where
  pub spins : get_elem? s.threads j ≡ some spinning
  pub none_runs : (i : ℕ) → get_elem? s.threads i ≢ some entered
  pub turn_created : get_elem? s.threads s.cpu_online ≢ some creating
  pub turn_spinning : get_elem? s.threads s.cpu_online ≢ some spinning
  pub not_returned : (code : ℕ) → s.main ≢ returned code
  pub not_aborted : s.main ≢ aborted

get_elem?-set_cases :
    (ts : List ThreadState) (i k : ℕ) (new : ThreadState) {t : ThreadState}
    → get_elem? (set ts i new) k ≡ some t
    → ((i ≡ k) × (new ≡ t)) ⊎ (get_elem? ts k ≡ some t)
get_elem?-set_cases [] i k new h = inr h
get_elem?-set_cases (u ∷ ts) zero zero new h = inl (refl, cc h)
get_elem?-set_cases (u ∷ ts) zero (suc k) new h = inr h
get_elem?-set_cases (u ∷ ts) (suc i) zero new h = inr h
get_elem?-set_cases (u ∷ ts) (suc i) (suc k) new h = elim (get_elem?-set_cases ts i k new h) [
  | inl (same, is) ↦ inl (ap suc same, is)
  | inr old ↦ inr old
]

-- A thread changes that is not the one that spins.
set_thread-IsHalted :
    {j : ℕ} {s : Run} (i : ℕ) (new : ThreadState)
    → i ≢ j
    → new ≢ entered
    → new ≢ creating
    → (new ≡ spinning → i ≢ s.cpu_online)
    → IsHalted j s
    → IsHalted j (record s { threads = set s.threads i new })
set_thread-IsHalted {j} {s} i new other idle old turn h = record {
  spins = get_elem?-set_ne s.threads new other ∙ h.spins;
  none_runs = λ k e. elim (get_elem?-set_cases s.threads i k new e) [
    | inl (same, is) ↦ idle is
    | inr before ↦ h.none_runs k before
  ];
  turn_created = λ e. elim (get_elem?-set_cases s.threads i s.cpu_online new e) [
    | inl (same, is) ↦ old is
    | inr before ↦ h.turn_created before
  ];
  turn_spinning = λ e. elim (get_elem?-set_cases s.threads i s.cpu_online new e) [
    | inl (same, is) ↦ turn is same
    | inr before ↦ h.turn_spinning before
  ];
  not_returned = h.not_returned;
  not_aborted = h.not_aborted;
}

Step-IsHalted : {j : ℕ} {s t : Run} → Step s t → IsHalted j s → IsHalted j t
Step-IsHalted {j} {s} (create i at) h =
    set_thread-IsHalted i spinning (other_thread s.threads i j at h.spins (λ e. cc e)) (λ e. cc e)
      (λ e. cc e)
      (λ e same. h.turn_created (subst (λ (k : ℕ). get_elem? s.threads k ≡ some creating) same at))
      h
Step-IsHalted {j} {s} (fail i at) h =
    set_thread-IsHalted i panicked (other_thread s.threads i j at h.spins (λ e. cc e)) (λ e. cc e)
      (λ e. cc e) (λ e. cc e) h
Step-IsHalted {j} {s} (enter i at turn) h =
    absurd
      (h.turn_spinning (subst (λ (k : ℕ). get_elem? s.threads k ≡ some spinning) (sym turn) at))
Step-IsHalted (count i at) h = absurd (h.none_runs i at)
Step-IsHalted (stop i at) h = absurd (h.none_runs i at)
Step-IsHalted (crash i at) h = absurd (h.none_runs i at)
Step-IsHalted (kick_fails i kicks at done) h = record {
  spins = h.spins;
  none_runs = h.none_runs;
  turn_created = h.turn_created;
  turn_spinning = h.turn_spinning;
  not_returned = λ code e. cc e;
  not_aborted = λ e. cc e;
}
Step-IsHalted (join_panics i kicks at before) h = record {
  spins = h.spins;
  none_runs = h.none_runs;
  turn_created = h.turn_created;
  turn_spinning = h.turn_spinning;
  not_returned = λ code e. cc e;
  not_aborted = λ e. cc e;
}
Step-IsHalted (wait i code at free) h = absurd (h.none_runs i at)
Step-IsHalted (release i code at at_main) h = absurd (h.none_runs i at)
Step-IsHalted (pair i code k other at at_thread ak) h = absurd (h.none_runs i at)
Step-IsHalted (main_waits at_start free) h = record {
  spins = h.spins;
  none_runs = h.none_runs;
  turn_created = h.turn_created;
  turn_spinning = h.turn_spinning;
  not_returned = λ code e. cc e;
  not_aborted = λ e. cc e;
}
Step-IsHalted {j} {s} (main_meets k code at_start at_thread at) h =
    let h' =
      set_thread-IsHalted k (ended (some code)) (other_thread s.threads k j at h.spins (λ e. cc e))
        (λ e. cc e) (λ e. cc e) (λ e. cc e) h in
    record {
      spins = h'.spins;
      none_runs = h'.none_runs;
      turn_created = h'.turn_created;
      turn_spinning = h'.turn_spinning;
      not_returned = λ code e. cc e;
      not_aborted = λ e. cc e;
    }
Step-IsHalted {j} {s} (main_joins kicks done unpanicked) h =
    cc (all_done-get_elem? s.threads j done h.spins)

-- If one CPU waits for its turn while none runs the guest and the one whose turn it is has ended or
-- panicked, the program never ends with a code and never comes to the end of its joins: the kick does
-- not reach a thread that spins, and no one counts the CPUs up. It can end only by a panic of the main
-- thread, at a kick that fails or at the join of a thread that has panicked.
pub Reach-IsHalted :
    (j : ℕ) {s t : Run}
    → IsHalted j s
    → Reach s t
    → IsHalted j t × ((code : ℕ) → t.main ≢ returned code) × (t.main ≢ aborted)
Reach-IsHalted j h here = (h, h.not_returned, h.not_aborted)
Reach-IsHalted j h (next r st) =
    let h' = Step-IsHalted st (Reach-IsHalted j h r).0 in (h', h'.not_returned, h'.not_aborted)

-- If every thread has ended or panicked while the main thread waits at the barrier, as when every CPU
-- fails with an error, nothing can happen any more.
Step-waiting : {s t : Run} → s.main ≡ waiting → all_done s.threads ≡ true → ¬ Step s t
Step-waiting {s} waits done (create i at) = cc (all_done-get_elem? s.threads i done at)
Step-waiting {s} waits done (fail i at) = cc (all_done-get_elem? s.threads i done at)
Step-waiting {s} waits done (enter i at turn) = cc (all_done-get_elem? s.threads i done at)
Step-waiting {s} waits done (count i at) = cc (all_done-get_elem? s.threads i done at)
Step-waiting {s} waits done (stop i at) = cc (all_done-get_elem? s.threads i done at)
Step-waiting {s} waits done (crash i at) = cc (all_done-get_elem? s.threads i done at)
Step-waiting waits done (kick_fails i kicks at ended_one) = cc (waits, kicks)
Step-waiting {s} waits done (wait i code at free) = cc (all_done-get_elem? s.threads i done at)
Step-waiting {s} waits done (release i code at at_main) =
    cc (all_done-get_elem? s.threads i done at)
Step-waiting {s} waits done (pair i code j other at at_thread aj) =
    cc (all_done-get_elem? s.threads i done at)
Step-waiting waits done (main_waits at_start free) = cc (waits, at_start)
Step-waiting waits done (main_meets j code at_start at_thread at) = cc (waits, at_start)
Step-waiting waits done (join_panics i kicks at before) = cc (waits, kicks)
Step-waiting waits done (main_joins kicks all unpanicked) = cc (waits, kicks)
