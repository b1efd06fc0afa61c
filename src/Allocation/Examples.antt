-- ===== src/Allocation/Examples.antt =====
-- One goroutine fetches a range, and two share it.
use sindri.Prelude.{arith, ℕ, ◌≤◌, true, List, [], ◌∷◌, All, ◌≡◌, refl, ◌++◌}
use sindri.Allocation.{Block}
use sindri.Allocation.Invariant.{Pairwise}
use sindri.Allocation.System.{Event, call, step, fetched, run, new_system}
use sindri.Allocation.Around.{run-Distinct}

abbrev steps : List Event
steps = step 0 true ∷ step 0 true ∷ step 0 true ∷ []

-- A call for one number finds no range, fetches one, and activates it; then another goroutine
-- asks for three numbers while the first asks for one more.
abbrev trace : List Event
trace =
    (call 0 1 ∷ steps)
    ++ (fetched (record { start = 1; last = 10 }) ∷ steps)
    ++ steps
    ++ (step 0 true ∷ call 1 3 ∷ call 0 1 ∷ step 1 true ∷ step 1 true ∷ step 0 true ∷ [])
    ++ (steps ++ (step 0 true ∷ step 1 true ∷ step 1 true ∷ step 1 true ∷ step 1 true ∷ []))
    ++ (step 1 true
        ∷ step 1 true
        ∷ step 1 true
        ∷ step 1 true
        ∷ step 1 true
        ∷ step 0 true
        ∷ step 1 true
        ∷ [])

trace_granted :
    (run new_system trace).key.granted
    ≡ record { first = 3; last = 5 }
      ∷ record { first = 2; last = 2 }
      ∷ record { first = 1; last = 1 }
      ∷ []
unfolding run sindri.Allocation.System.react sindri.Allocation.advance sindri.Prelude.ℕ_discrete
trace_granted = refl

run-Distinct_example :
    Pairwise (run new_system trace).key.granted
    × All (λ b. b.last ≤ (run new_system trace).key.high) (run new_system trace).key.granted
run-Distinct_example = run-Distinct trace (omega arith, omega arith, omega arith, tt) (omega arith)
