-- ===== src/Network.antt =====
-- Several nodes of core/node.go, each a process that runs main.go, and the network between them.
pub mod Backing
pub mod Quorums
pub mod Vouched
pub mod Agreement
pub mod Justified
mod Forks
mod Tests
use simple_ft.Base.{
  ℕ, ◌≡◌, GoString, Slice, bytes_discrete, Bool, true, List, [], ◌∷◌, none, some, ite, Occurs,
}
use simple_ft.Data.{Message}
use simple_ft.Config.{Config}
use simple_ft.Hashing.{Primitives}
use simple_ft.Node.Broadcast.{author, verify_sig_ed25519}
use simple_ft.Node.Tasks.{System, Event, receive, run, request, propose, step, start}

-- The processes, by the names of their nodes.
abbrev pub Network : Type 0
Network = GoString → System

abbrev pub replace : GoString → System → Network → Network
replace name s net other = ite (bytes_discrete name other) s (net other)

module _ (p : Primitives) where
  abbrev pub start_network : (GoString → Config) → Network
  start_network confs name = start p (confs name)

  -- An event at a node. One that cannot happen, or at which the process panics, changes nothing: a
  -- process that has ended has no events any more.
  unfoldable pub step_network : Network → GoString × Event → Network
  step_network net (name, e) = elim (step p (net name) e) [
    | none ↦ net
    | some s ↦ replace name s net
  ]

  unfoldable pub run_network : Network → List (GoString × Event) → Network
  run_network net [] = net
  run_network net (e ∷ es) = run_network (step_network net e) es

  -- A message that arrives with a signature that is right for a node that follows the code was
  -- broadcast by that node before.
  abbrev pub Authentic : (GoString → Bool) → Network → GoString × Event → Type 0
  Authentic honest net (name, receive msg sig) =
      verify_sig_ed25519 p (net name).node (author msg) msg sig ≡ some true
      → honest (author msg) ≡ true
      → Occurs msg (net (author msg)).sent
  Authentic honest net (name, run i order) = Unit
  Authentic honest net (name, request r) = Unit
  Authentic honest net (name, propose c win) = Unit

  -- No signature of these nodes is forged in the run.
  abbrev pub Unforged : (GoString → Bool) → Network → List (GoString × Event) → Type 0
  Unforged honest net [] = Unit
  Unforged honest net (e ∷ es) = Authentic honest net e × Unforged honest (step_network net e) es
