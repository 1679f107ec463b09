-- ===== src/Transport/Listening.antt =====
-- The loop of `listen` of conn/net_transport.go, which accepts connections. What `Accept` returns is
-- part of an event.
pub mod Delays
mod Tests
use simple_ft.Base.{
  ℕ, ◌+◌, ◌*◌, Bool, true, false, not, List, [], ◌∷◌, ◌++◌, ltb, ◌==◌, if◌then◌else◌,
}

-- `baseDelay` and `maxDelay`, in nanoseconds.
abbrev pub base_delay : ℕ
base_delay = 5000000

abbrev pub max_delay : ℕ
max_delay = 1000000000

-- The goroutine of `listen`: whether it still runs, whether `shutdownCh` is closed, the connections
-- that it has given to a goroutine of `handleConn`, and the delays that it has waited.
pub record Listener : Type 0 where
  pub listening : Bool
  pub loop_delay : ℕ
  pub shutdown : Bool
  pub handled : List ℕ
  pub waits : List ℕ

abbrev pub start : Listener
start = record { listening = true; loop_delay = 0; shutdown = false; handled = []; waits = [] }

-- `Accept` returns a connection, or fails; where both cases of the select are ready, with `true`
-- it is the timer's that is taken. Another goroutine calls `Close`.
pub data Event : Type 0 where
  accepts : ℕ → Event
  fails : Bool → Event
  closes : Event

-- The delay after one more failure.
unfoldable pub next_delay : ℕ → ℕ
next_delay loop_delay =
    let doubled = if loop_delay == 0 then base_delay else loop_delay * 2 in
    if ltb max_delay doubled then max_delay else doubled

-- A failure of `Accept`.
unfoldable pub fail : Bool → Listener → Listener
unfolding next_delay
fail timer l =
    let delay = next_delay l.loop_delay in
    if not l.shutdown
    then record l { loop_delay = delay; listening = false }
    else if timer
    then record l { loop_delay = delay; waits = l.waits ++ delay ∷ [] }
    else record l { loop_delay = delay; listening = false }

-- A round of the loop, if it still runs, or a call of `Close`.
unfoldable pub step : Listener → Event → Listener
unfolding fail
step l closes = record l { shutdown = true }
step l (accepts c) =
    if l.listening then record l { loop_delay = 0; handled = l.handled ++ c ∷ [] } else l
step l (fails timer) = if l.listening then fail timer l else l

unfoldable pub run : Listener → List Event → Listener
unfolding step
run l [] = l
run l (e ∷ es) = run (step l e) es
