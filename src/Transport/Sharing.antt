-- ===== src/Transport/Sharing.antt =====
-- The goroutines that share the pool of connections of conn/net_transport.go, in every interleaving
-- of their calls.
pub mod Owned
pub mod Steps
pub mod Runs
pub mod Carried
pub mod Received
mod Tests
use simple_ft.Base.{
  ℕ, ℤ, GoString, Bool, true, false, if◌then◌else◌, List, [], ◌∷◌, none, some, pick,
}
use simple_ft.Transport.Wire.{Codec, MsgWithSig, frame}
use simple_ft.Transport.{
  NetworkTransport, new_network_transport, get_conn, send_frame, return_conn, close, Sending,
}

-- The transport, and the connections that `GetConn` has given to goroutines and that have not gone
-- back.
pub record Users : Type 0 where
  pub transport : NetworkTransport
  pub held : List ℕ

-- A goroutine asks for a connection (and dialing works or not), sends a message on the one at a place
-- of `held`, or gives that one back; or the transport is closed.
pub data Event : Type 0 where
  take_conn : Bool → GoString → Event
  send : ℕ → Sending → MsgWithSig → Event
  give_back : ℕ → Event
  shut_down : Event

module _ (c : Codec) where
  -- A goroutine whose `SendMsg` has failed lets the connection go, as `broadcast` does.
  unfoldable pub step : Users → Event → Users
  unfolding get_conn send_frame return_conn close
  step u (take_conn dials target) =
      let got = get_conn dials target u.transport in
      elim got.1 [
        | none ↦ record { transport = got.0; held = u.held }
        | some i ↦ record { transport = got.0; held = i ∷ u.held }
      ]
  step u (send place network m) = elim (pick place u.held) [
    | none ↦ u
    | some (i, rest) ↦
        let out = send_frame network i (frame c m) u.transport in
        record { transport = out.0; held = if out.1 then i ∷ rest else rest }
  ]
  step u (give_back place) = elim (pick place u.held) [
    | none ↦ u
    | some (i, rest) ↦ record { transport = (return_conn i u.transport).0; held = rest }
  ]
  step u shut_down = record u { transport = close u.transport }

  unfoldable pub run : Users → List Event → Users
  unfolding step
  run u [] = u
  run u (e ∷ es) = run (step u e) es

abbrev pub start : ℤ → Users
start max_pool = record { transport = new_network_transport max_pool; held = [] }
