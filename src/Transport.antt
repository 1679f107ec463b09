-- ===== src/Transport.antt =====
-- The connections of conn/net_transport.go and conn/net_conn.go. What dialing and the network do are
-- arguments.
pub mod Wire
pub mod Sharing
pub mod Transmit
pub mod Establish
pub mod Listening
use simple_ft.Base.{
  ℕ, zero, suc, ℤ, pos, lt_int, ◌+◌, GoString, Slice, Map, get, put, string_key, Bool, true, false,
  not, ◌&&◌, if◌then◌else◌, List, [], ◌∷◌, ◌++◌, take, Option, none, some, ite, length, ℕ_discrete,
}

-- `NetConn`: whether the connection is open, and the bytes that have gone out on it.
pub record NetConn : Type 0 where
  pub target : GoString
  pub is_open : Bool
  pub sent : List ℕ

-- `NetworkTransport`. A connection is a pointer: `conns` is what stands at an address, and
-- `next_conn` is the next free one. `shutdown` says as well whether `shutdownCh` is closed.
pub record NetworkTransport : Type 0 where
  pub conn_pool : Map GoString (List ℕ)
  pub max_pool : ℤ
  pub shutdown : Bool
  pub conns : ℕ → NetConn
  pub next_conn : ℕ

abbrev pub no_conn_yet : NetConn
no_conn_yet = record { target = []; is_open = false; sent = [] }

-- `NewNetworkTransportWithConfig`
unfoldable pub new_network_transport : ℤ → NetworkTransport
new_network_transport max_pool = record {
  conn_pool = [];
  max_pool = max_pool;
  shutdown = false;
  conns = λ i. no_conn_yet;
  next_conn = 0;
}

-- A write at an address.
abbrev pub set_conn : ℕ → NetConn → (ℕ → NetConn) → ℕ → NetConn
set_conn i c conns j = ite (ℕ_discrete i j) c (conns j)

-- A missing key reads nil.
abbrev pub ids_of : Option (List ℕ) → List ℕ
ids_of none = []
ids_of (some ids) = ids

-- The idle connections to a target.
abbrev pub idle : GoString → NetworkTransport → List ℕ
idle target n = ids_of (get target n.conn_pool)

-- The last element, and those before it.
unfoldable pub split_last : List ℕ → Option (List ℕ × ℕ)
split_last [] = none
split_last (i ∷ is) = elim (split_last is) [
  | none ↦ some ([], i)
  | some (front, last) ↦ some (i ∷ front, last)
]

-- `dialConn`: with `false`, dialing fails.
unfoldable pub dial_conn : Bool → GoString → NetworkTransport → NetworkTransport × Option ℕ
dial_conn dials target n =
    if dials
    then (
      record n {
        conns =
            set_conn n.next_conn (record { target = target; is_open = true; sent = [] }) n.conns;
        next_conn = n.next_conn + 1;
      },
      some n.next_conn,
    )
    else (n, none)

-- `GetConn`; `none` is an error.
unfoldable pub get_conn : Bool → GoString → NetworkTransport → NetworkTransport × Option ℕ
unfolding dial_conn split_last
get_conn dials target n = elim (split_last (idle target n)) [
  | none ↦ dial_conn dials target n
  | some (front, last) ↦ (record n { conn_pool = put target front n.conn_pool }, some last)
]

-- `Release`: closing a connection that is closed is an error, which `false` stands for.
unfoldable pub release : ℕ → NetworkTransport → NetworkTransport × Bool
release i n =
    let c = n.conns i in
    (record n { conns = set_conn i (record c { is_open = false }) n.conns }, c.is_open)

-- `ReturnConn`; `false` is an error.
unfoldable pub return_conn : ℕ → NetworkTransport → NetworkTransport × Bool
unfolding release
return_conn i n =
    let key = (n.conns i).target in
    let net_conns = idle key n in
    if not n.shutdown && lt_int (length net_conns) n.max_pool
    then (record n { conn_pool = put key (net_conns ++ i ∷ []) n.conn_pool }, true)
    else release i n

-- The steps of `SendMsg` at which it can fail.
pub data Step : Type 0 where
  tag_step msg_step sig_step flush_step : Step

-- What the network does: all goes out, or a step fails when so many bytes have gone out.
pub data Sending : Type 0 where
  all_sent : Sending
  fails_at : Step → ℕ → Sending

-- `SendMsg` for the bytes of a frame; `false` is an error, after which the connection is closed. On
-- a closed connection nothing goes out, and the flush fails.
unfoldable pub send_frame : Sending → ℕ → List ℕ → NetworkTransport → NetworkTransport × Bool
unfolding release
send_frame network i frame n =
    let c = n.conns i in
    let after = λ (bytes : List ℕ). record n {
      conns = set_conn i (record c { sent = c.sent ++ bytes }) n.conns;
    } in
    if c.is_open
    then elim network [
      | all_sent ↦ (after frame, true)
      | fails_at s k ↦ ((release i (after (take k frame))).0, false)
    ]
    else ((release i n).0, false)

-- `Close`
unfoldable pub close : NetworkTransport → NetworkTransport
close n = record n { shutdown = true }
