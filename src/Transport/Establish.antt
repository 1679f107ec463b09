-- ===== src/Transport/Establish.antt =====
-- `EstablishP2PConns` of core/node.go: the connections that a node makes at its start.
pub mod Filled
mod Tests
use simple_ft.Base.{ℕ, ℤ, GoString, Map, Bool, true, false, List, [], ◌∷◌, Option, none, some}
use simple_ft.Node.Broadcast.{addr_with_port}
use simple_ft.Transport.{NetworkTransport, get_conn, return_conn}

-- The loop over the cluster; `false` is an error. An error of `ReturnConn` is passed over.
unfoldable pub establish_loop :
    (GoString → Bool)
    → Map GoString ℤ
    → List (GoString × GoString)
    → NetworkTransport
    → NetworkTransport × Bool
unfolding get_conn return_conn
establish_loop dials ports [] t = (t, true)
establish_loop dials ports ((name, addr) ∷ rest) t =
    let to = addr_with_port ports name addr in
    let got = get_conn (dials to) to t in
    let next = establish_loop dials ports rest in
    elim got.1 [ none ↦ (got.0, false) | some i ↦ next (return_conn i got.0).0 ]

-- `EstablishP2PConns`; without a transport it is an error.
unfoldable pub establish_p2p_conns :
    (GoString → Bool)
    → Map GoString ℤ
    → List (GoString × GoString)
    → Option NetworkTransport
    → Option NetworkTransport × Bool
unfolding establish_loop
establish_p2p_conns dials ports cluster none = (none, false)
establish_p2p_conns dials ports cluster (some t) =
    let r = establish_loop dials ports cluster t in (some r.0, r.1)
