-- ===== src/Macos/Threads/First.antt =====
-- The code with which the program ends.
use uhyve.Macos.Threads.{
  crash, exit, MainState, Reach, Run, Step, count, create, enter, fail, here, next, receive,
  receiving, returned, send, start, stop,
}
use uhyve.Prelude.{append_nil, subst, inl, inr, ◌⊎◌, List, [], refl, sym, ℕ, ◌++◌, ◌∷◌, ◌≡◌}

abbrev sent_by : {s t : Run} → Step s t → List ℕ
sent_by (create i h) = []
sent_by (fail i h) = []
sent_by (enter i h turn) = []
sent_by (count i h) = []
sent_by (stop i h) = []
sent_by (crash i h) = []
sent_by (exit i code h) = []
sent_by (send i code h) = code ∷ []
sent_by (receive code rest waits holds) = []

-- The codes that were sent, in the order of time.
unfoldable pub codes_sent : {s t : Run} → Reach s t → List ℕ
codes_sent here = []
codes_sent (next r st) = codes_sent r ++ sent_by st

-- What the main thread and the channel make of the codes so far.
data IsFirst : MainState → List ℕ → List ℕ → Type 0 where
  pending : (codes : List ℕ) → IsFirst receiving codes codes
  taken : (code : ℕ) (rest : List ℕ) → IsFirst (returned code) rest (code ∷ rest)

IsFirst-append :
    {m : MainState} {channel codes : List ℕ} (more : List ℕ)
    → IsFirst m channel codes
    → IsFirst m (channel ++ more) (codes ++ more)
IsFirst-append more (pending codes) = pending (codes ++ more)
IsFirst-append more (taken code rest) = taken code (rest ++ more)

IsFirst-quiet :
    {m : MainState} {channel codes : List ℕ}
    → IsFirst m channel codes
    → IsFirst m channel (codes ++ [])
IsFirst-quiet {m} {channel} {codes} first =
    subst (λ t. IsFirst m channel t) (sym (append_nil codes)) first

IsFirst-receive :
    {m : MainState} {channel codes : List ℕ} (code : ℕ) (rest : List ℕ)
    → m ≡ receiving
    → channel ≡ code ∷ rest
    → IsFirst m channel codes
    → IsFirst (returned code) rest (codes ++ [])
IsFirst-receive code rest waits holds (pending codes) =
    IsFirst-quiet (subst (λ t. IsFirst (returned code) rest t) (sym holds) (taken code rest))
IsFirst-receive code rest waits holds (taken other more) = cc waits

Step-IsFirst :
    {s t : Run} {codes : List ℕ} (st : Step s t)
    → IsFirst s.main s.channel codes
    → IsFirst t.main t.channel (codes ++ sent_by st)
Step-IsFirst (create i h) first = IsFirst-quiet first
Step-IsFirst (fail i h) first = IsFirst-quiet first
Step-IsFirst (enter i h turn) first = IsFirst-quiet first
Step-IsFirst (count i h) first = IsFirst-quiet first
Step-IsFirst (stop i h) first = IsFirst-quiet first
Step-IsFirst (crash i h) first = IsFirst-quiet first
Step-IsFirst (exit i code h) first = IsFirst-quiet first
Step-IsFirst (send i code h) first = IsFirst-append (code ∷ []) first
Step-IsFirst (receive code rest waits holds) first = IsFirst-receive code rest waits holds first

Reach-IsFirst : (n : ℕ) {s : Run} (r : Reach (start n) s) → IsFirst s.main s.channel (codes_sent r)
unfolding start codes_sent
Reach-IsFirst n here = pending []
Reach-IsFirst n (next r st) = Step-IsFirst st (Reach-IsFirst n r)

IsFirst-returned :
    {m : MainState} {channel codes : List ℕ} (code : ℕ)
    → IsFirst m channel codes
    → m ≡ returned code
    → (rest : List ℕ) × (codes ≡ code ∷ rest)
IsFirst-returned code (pending codes) e = cc e
IsFirst-returned code (taken other rest) e = (rest, cc e)

-- A code that came first is in the channel, or taken.
IsFirst-code :
    {m : MainState} {channel codes : List ℕ} (code : ℕ) (rest : List ℕ)
    → IsFirst m channel codes
    → codes ≡ code ∷ rest
    → ((m ≡ receiving) × (channel ≡ code ∷ rest)) ⊎ (m ≡ returned code)
IsFirst-code code rest (pending codes) e = inl (refl, e)
IsFirst-code code rest (taken other more) e = inr (cc e)

-- The program ends with the code that is sent first, whatever the other threads do: if it has ended
-- with a code, that code was sent first; and once a code was sent first, it has ended with it, or can
-- receive it in its next step, also if other threads fail or still wait for their turn to start.
pub Reach-first :
    (n : ℕ) {s : Run} (r : Reach (start n) s) (code : ℕ)
    → (s.main ≡ returned code → (rest : List ℕ) × (codes_sent r ≡ code ∷ rest))
      × ((rest : List ℕ)
          → codes_sent r ≡ code ∷ rest
          → (s.main ≡ returned code) ⊎ ((u : Run) × Step s u × (u.main ≡ returned code)))
Reach-first n {s} r code =
    let first = Reach-IsFirst n r in
    (
      IsFirst-returned code first,
      λ rest e. elim (IsFirst-code code rest first e) [
        | inl (waits, holds) ↦
            inr (
              record s { main = returned code; channel = rest },
              receive code rest waits holds,
              refl,
            )
        | inr has ↦ inl has
      ],
    )
