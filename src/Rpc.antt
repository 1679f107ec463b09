-- ===== src/Rpc.antt =====
-- `RPCHandler.NewRequest` of core/rpc_handler.go, in every interleaving of its calls with one another
-- and with the packaging of requests into blocks.
pub mod Numbers
mod Tests
use simple_ft.Base.{
  total, total-append, bit, pick, ℕ, zero, suc, ◌+◌, ◌≤◌, ◌<◌, ◌^◌, ◌≡◌, refl, GoString, List, [],
  ◌∷◌, ◌++◌, Option, none, some, u64, ltb, ◌==◌, arith, if◌then◌else◌, Bool, true, false,
  Option-cases, inl, inr, length, take, drop, take-append-drop, ap,
}
use simple_ft.Data.{Request, RequestWrappedByServer, Reply}
use simple_ft.Node.Proposing.{take_requests, end_num}

-- The handler, the pool that it shares with the node, the calls between their two locks, the
-- replies, and the requests that have been packaged.
pub record Handler : Type 0 where
  pub node_name : GoString
  pub next_sn : ℕ
  pub pool : List RequestWrappedByServer
  pub calls : List RequestWrappedByServer
  pub replies : List Reply
  pub packaged : List RequestWrappedByServer

-- The handler that `NewNode` makes.
abbrev pub new_handler : GoString → Handler
new_handler name = record {
  node_name = name;
  next_sn = 0;
  pool = [];
  calls = [];
  replies = [];
  packaged = [];
}

-- `NewRequest` under its own lock.
unfoldable pub draw_sn : Handler → Request → Handler
draw_sn c req = record c {
  next_sn = u64 (c.next_sn + 1);
  calls = c.calls ++ record { request = req; server_name = c.node_name; sn = c.next_sn } ∷ [];
}

-- The rest of the call at a place: under the lock of the pool, and the reply.
unfoldable pub finish : Handler → ℕ → Handler
unfolding pick
finish c i = elim (pick i c.calls) [
  | none ↦ c
  | some (r, rest) ↦ record c {
    pool = c.pool ++ r ∷ [];
    calls = rest;
    replies = c.replies ++ record { server_name = c.node_name; sn = r.sn } ∷ [];
  }
]

-- `ProposeBlockLoop` under the lock of the pool.
unfoldable pub package_block : Handler → Handler
package_block c = record c {
  packaged = c.packaged ++ (take_requests c.pool).0;
  pool = (take_requests c.pool).1;
}

pub data Event : Type 0 where
  call : Request → Event
  end_call : ℕ → Event
  propose : Event

unfoldable pub step : Handler → Event → Handler
unfolding draw_sn finish package_block
step c (call req) = draw_sn c req
step c (end_call i) = finish c i
step c propose = package_block c

unfoldable pub run : Handler → List Event → Handler
unfolding step
run c [] = c
run c (e ∷ es) = run (step c e) es
