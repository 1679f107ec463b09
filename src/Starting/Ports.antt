-- ===== src/Starting/Ports.antt =====
-- When the start of a node succeeds.
use simple_ft.Base.{
  ℕ, ◌<◌, ◌≡◌, ◌≢◌, sym, ap, ◌∙◌, pos, GoString, codes, itoa, digits, value, value-digits,
  string_key, true, false, [], ◌∷◌, ◌++◌, some, none, All, length,
}
use simple_ft.Config.{Config, Floats}
use simple_ft.Hashing.{Primitives}
use simple_ft.Node.{new_node}
use simple_ft.Rpc.{new_handler}
use simple_ft.Sortitioner.{Sortitioner}
use simple_ft.Transport.{NetworkTransport, new_network_transport, idle}
use simple_ft.Transport.Listening.{start}
use simple_ft.Transport.Sharing.Owned.{Owned}
use simple_ft.Transport.Transmit.Refines.{addresses}
use simple_ft.Starting.{Host, Process}

-- The address of a port.
abbrev pub at_port : ℕ → GoString
at_port q = codes ":" ++ itoa (pos q)

pub at_port-injective : (q r : ℕ) → at_port q ≡ at_port r → q ≡ r
unfolding itoa
at_port-injective q r e = sym (value-digits q) ∙ ap (value 0) same ∙ value-digits r
  where
    same : digits q ≡ digits r
    same = cc

-- A port that names itself: 0 asks the system for any free port, and 65535 is the last.
abbrev pub IsPort : ℕ → Type 0
IsPort q = (0 < q) × (q < 65536)

-- A host on which everything succeeds but listening twice at a port.
pub record Works (h : Host) : Type 0 where
  pub registers : h.registers ≡ true
  pub free : (q : ℕ) → IsPort q → h.listens [] (at_port q) ≡ true
  pub other :
      (q r : ℕ) → IsPort q → IsPort r → q ≢ r → h.listens (at_port q ∷ []) (at_port r) ≡ true
  pub in_use : (q : ℕ) → IsPort q → h.listens (at_port q ∷ []) (at_port q) ≡ false
  pub dials : (a : GoString) → h.dials a ≡ true

-- The state in which `main` begins to handle messages.
pub record Serves (p : Primitives) (conf : Config) (proc : Process) : Type 0 where
  pub node : proc.node ≡ new_node p conf
  pub listener : proc.listener ≡ some start
  pub rpc_handler : proc.rpc_handler ≡ some (new_handler conf.name)
  pub connected :
      (t : NetworkTransport) × (proc.trans ≡ some t)
      × All (λ a. 0 < length (idle a t)) (addresses conf.cluster_port conf.cluster_addr)
      × Owned t []

module _ (h : Host) (floats : Floats) (p : Primitives) (works : Works h) where
  open works use {registers, free, other, in_use, dials}

  abbrev fresh : Config → Sortitioner → Process
  fresh conf s = record {
    node = new_node p conf;
    sortitioner = s;
    trans = none;
    listener = none;
    rpc_handler = none;
    bound = [];
  }

  abbrev listening : Config → Sortitioner → ℕ → Process
  listening conf s q = record (fresh conf s) {
    trans = some (new_network_transport conf.max_pool);
    listener = some start;
    bound = at_port q ∷ [];
  }

  abbrev serving : Config → Sortitioner → ℕ → ℕ → Process
  serving conf s q r = record (listening conf s q) {
    rpc_handler = some (new_handler conf.name);
    bound = at_port r ∷ at_port q ∷ [];
  }
