-- ===== src/Transport/Listening/Tests.antt =====
-- Runs of the loop that accepts connections.
use simple_ft.Base.{◌≡◌, refl, true, false, List, [], ◌∷◌}
use simple_ft.Transport.Listening.{
  Event, accepts, fails, closes, start, step, fail, next_delay, run,
}
use simple_ft.Transport.Listening.Delays.{Patient, listen-first_failure, listen-Patient}

-- Nine failures after the transport is closed, where the timer's case is always taken.
abbrev impatient : List Event
impatient =
    closes
    ∷ fails true
    ∷ fails true
    ∷ fails true
    ∷ fails true
    ∷ fails true
    ∷ fails true
    ∷ fails true
    ∷ fails true
    ∷ fails true
    ∷ []

doubling :
    (run start impatient).waits
    ≡ 5000000 ∷ 10000000 ∷ 20000000 ∷ 40000000 ∷ 80000000 ∷ 160000000 ∷ 320000000 ∷ 640000000
      ∷ 1000000000 ∷ []
unfolding run step fail next_delay
doubling = refl

listen-first_failure_example :
    ((run start (accepts 4 ∷ accepts 9 ∷ fails false ∷ accepts 5 ∷ [])).listening ≡ false)
    × ((run start (accepts 4 ∷ accepts 9 ∷ fails false ∷ accepts 5 ∷ [])).handled ≡ 4 ∷ 9 ∷ [])
listen-first_failure_example = listen-first_failure (4 ∷ 9 ∷ []) false (accepts 5 ∷ [])

listen-Patient_example : Patient (run start impatient)
listen-Patient_example = listen-Patient impatient
