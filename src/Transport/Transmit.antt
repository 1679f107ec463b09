-- ===== src/Transport/Transmit.antt =====
-- The loop of `broadcast` of core/node.go over the pool of connections.
pub mod Rounds
pub mod Refines
mod Tests
use simple_ft.Base.{
  ℕ, ℤ, GoString, Map, get, string_key, Bool, true, false, if◌then◌else◌, List, [], ◌∷◌, none, some,
}
use simple_ft.Node.Broadcast.{Link, no_conn, send_fails, works, addr_with_port}
use simple_ft.Transport.{
  NetworkTransport, idle, split_last, get_conn, send_frame, return_conn, Sending, all_sent,
  fails_at,
}

-- What the loop does for one address: `GetConn`, `SendMsg`, `ReturnConn`; `false` is an error.
unfoldable pub send_to :
    Bool → Sending → List ℕ → GoString → NetworkTransport → NetworkTransport × Bool
unfolding get_conn send_frame return_conn
send_to dials network frame to t =
    let got = get_conn dials to t in
    elim got.1 [
      | none ↦ (got.0, false)
      | some i ↦
          let out = send_frame network i frame got.0 in
          if out.1 then return_conn i out.0 else (out.0, false)
    ]

-- The loop of `broadcast`, for the bytes of a frame; what dialing and the network do is given for each
-- address.
unfoldable pub transmit :
    (GoString → Bool)
    → (GoString → Sending)
    → Map GoString ℤ
    → Map GoString Bool
    → List ℕ
    → List (GoString × GoString)
    → NetworkTransport
    → NetworkTransport × Bool
unfolding send_to
transmit dials network ports exc frame [] t = (t, true)
transmit dials network ports exc frame ((name, addr) ∷ rest) t =
    let to = addr_with_port ports name addr in
    let next = transmit dials network ports exc frame rest in
    elim (get to exc) [
      | some b ↦ next t
      | none ↦
          let sent = send_to (dials to) (network to) frame to t in
          if sent.1 then next sent.0 else sent
    ]

-- What `Link` a connection and a network come to.
abbrev pub link_with : Sending → Link
link_with all_sent = works
link_with (fails_at s k) = send_fails

unfoldable pub link_of : Bool → Sending → GoString → NetworkTransport → Link
unfolding split_last
link_of dials network to t = elim (split_last (idle to t)) [
  | some last ↦ link_with network
  | none ↦ if dials then link_with network else no_conn
]
