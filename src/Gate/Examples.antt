-- ===== src/Gate/Examples.antt =====
-- Two goroutines at a gate that is opened, withdrawn and drained.
use sindri.Prelude.{length, true, false, List, [], ◌∷◌, ◌++◌, ◌≡◌, refl}
use sindri.Gate.{
  Drain, polling, quiesced, Slot, Step, arrive, proceed, open_pending, detach, start_drain, poll,
  step, run_steps, new_slot,
}
use sindri.Gate.Drained.{Empty, run_steps-Empty}
use sindri.Gate.Quiesces.{all_leave, all_leave-quiesced}

-- The first gets in; the second arrives too late; the drain finds the first still inside.
abbrev busy : List Step
busy =
    open_pending
    ∷ arrive 0
    ∷ proceed 0
    ∷ arrive 1
    ∷ detach
    ∷ start_drain
    ∷ proceed 1
    ∷ poll false
    ∷ []

abbrev ended : List Step
ended = busy ++ (proceed 0 ∷ proceed 1 ∷ poll false ∷ [])

still_polling : (run_steps busy (new_slot 2)).drain ≡ polling
unfolding run_steps step sindri.Gate.set_caller
still_polling = refl

drained : (run_steps ended (new_slot 2)).drain ≡ quiesced
unfolding run_steps step sindri.Gate.set_caller
drained = refl

run_steps-Empty_example :
    ((run_steps (open_pending ∷ arrive 0 ∷ proceed 0 ∷ []) (run_steps ended (new_slot 2))).draining
      ≡ true)
    × Empty (run_steps (open_pending ∷ arrive 0 ∷ proceed 0 ∷ []) (run_steps ended (new_slot 2)))
run_steps-Empty_example = run_steps-Empty 2 ended (open_pending ∷ arrive 0 ∷ proceed 0 ∷ []) drained

all_leave-quiesced_example :
    (step (poll true) (
      run_steps
        (all_leave (length (run_steps busy (new_slot 2)).callers))
        (run_steps busy (new_slot 2)))).drain
    ≡ quiesced
all_leave-quiesced_example = all_leave-quiesced 2 busy true still_polling
