-- ===== src/Macos/Threads/Tests.antt =====
-- Two CPUs on macOS, of which the first one ends the guest before the second one starts.
use uhyve.Macos.Threads.{
  exit, Reach, Run, Step, create, creating, ended, enter, here, next, receiving, returned, send,
  start,
}
use uhyve.Macos.Threads.First.{Reach-first, codes_sent}
use uhyve.Prelude.{List, [], refl, some, ℕ, ◌∷◌, ◌≡◌, ◌⊎◌}

abbrev sent : Run
sent = record {
  threads = ended (some 7) ∷ creating ∷ [];
  channel = 7 ∷ [];
  main = receiving;
  cpu_online = 0;
}

sends : Reach (start 2) sent
unfolding start
sends =
    next (next (next (next here (create 0 refl)) (enter 0 refl refl)) (exit 0 7 refl))
      (send 0 7 refl)

Reach-first_example :
    (sent.main ≡ returned 7 → (rest : List ℕ) × (codes_sent sends ≡ 7 ∷ rest))
    × ((rest : List ℕ)
        → codes_sent sends ≡ 7 ∷ rest
        → (sent.main ≡ returned 7) ⊎ ((u : Run) × Step sent u × (u.main ≡ returned 7)))
Reach-first_example = Reach-first 2 sends 7
