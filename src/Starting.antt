-- ===== src/Starting.antt =====
-- How a node is started: main.go, the starts of the listeners of core/node.go, and the transport of
-- conn/tcp_transport.go and conn/net_transport.go on its listener. What net and net/rpc do is an
-- argument.
pub mod Ports
mod Tests
use simple_ft.Base.{
  ℤ, pos, GoString, codes, itoa, get, string_key, Bool, List, [], ◌∷◌, ◌++◌, Option, none, some,
  if◌then◌else◌,
}
use simple_ft.Config.{Config, Floats, Loaded, loaded, failed, panicked}
use simple_ft.Hashing.{Primitives}
use simple_ft.Node.{Node}
use simple_ft.Rpc.{Handler, new_handler}
use simple_ft.Sortitioner.{Sortitioner, make_node}
use simple_ft.Transport.{NetworkTransport, new_network_transport}
use simple_ft.Transport.Establish.{establish_p2p_conns}
use simple_ft.Transport.Listening.{Listener, start}

-- What the packages net and net/rpc do: whether `net.Listen` succeeds at an address while the
-- process listens at others, whether `rpc.Register` does, and `net.DialTimeout`.
pub record Host : Type 0 where
  pub listens : List GoString → GoString → Bool
  pub registers : Bool
  pub dials : GoString → Bool

-- A process: its node, the transport with the goroutine of `listen`, the handler that requests
-- reach, and the addresses at which it listens.
pub record Process : Type 0 where
  pub node : Node
  pub sortitioner : Sortitioner
  pub trans : Option NetworkTransport
  pub listener : Option Listener
  pub rpc_handler : Option Handler
  pub bound : List GoString

-- How a start ends: with a new state, with an error, or with the end of the process.
pub data Start : Type 0 where
  started : Process → Start
  refused : Start
  exited : Start

-- How `main` goes on: a panic, the end of the process, or `HandleMsgsLoop`, with whether
-- `ProposeBlockLoop` runs beside it.
pub data Running : Type 0 where
  panics : Running
  exits : Running
  handles : Process → Bool → Running

module _ (h : Host) where
  -- `newTCPTransport` with `NewNetworkTransport`; `none` is an error.
  unfoldable pub new_tcp_transport :
      List GoString → GoString → ℤ → Option (NetworkTransport × Listener)
  unfolding new_network_transport
  new_tcp_transport bound bind_addr max_pool =
      if h.listens bound bind_addr then some (new_network_transport max_pool, start) else none

  -- `StartP2PListen`; a missing port reads 0.
  unfoldable pub start_p2p_listen : Process → Start
  unfolding new_tcp_transport
  start_p2p_listen proc =
      let addr =
        codes ":"
        ++ itoa (elim (get proc.node.name proc.node.cluster_port) [
          | none ↦ pos 0
          | some port ↦ port
        ]) in
      elim (new_tcp_transport proc.bound addr proc.node.max_pool) [
        | none ↦ refused
        | some (trans, listener) ↦ started (record proc {
          trans = some trans;
          listener = some listener;
          bound = addr ∷ proc.bound;
        })
      ]

  -- `StartRPCListen`; `log.Fatal` ends the process.
  unfoldable pub start_rpc_listen : Process → Start
  start_rpc_listen proc =
      let addr = codes ":" ++ itoa proc.node.rpc_listen_port in
      if h.registers
      then if h.listens proc.bound addr
        then started (record proc {
          rpc_handler = some (new_handler proc.node.name);
          bound = addr ∷ proc.bound;
        })
        else exited
      else refused

  -- `main` from `EstablishP2PConns` on.
  unfoldable pub connect : Process → Running
  unfolding establish_p2p_conns
  connect proc =
      let (trans, fine) =
        establish_p2p_conns h.dials proc.node.cluster_port proc.node.cluster_addr proc.trans in
      if fine then handles (record proc { trans = trans }) proc.node.can_propose_block else panics

  -- `main` after `NewNode`.
  unfoldable pub start_process : Process → Running
  unfolding start_p2p_listen start_rpc_listen connect
  start_process proc = elim (start_p2p_listen proc) [
    | refused ↦ panics
    | exited ↦ exits
    | started listening ↦ elim (start_rpc_listen listening) [
      | refused ↦ panics
      | exited ↦ exits
      | started serving ↦ connect serving
    ]
  ]

  -- `main`, with what `LoadConfig` gives to `init`.
  unfoldable pub main : Floats → Primitives → Loaded Config → Running
  unfolding make_node start_process
  main floats p failed = panics
  main floats p panicked = panics
  main floats p (loaded conf) = elim (make_node floats p conf) [
    | none ↦ panics
    | some (node, sortitioner) ↦ start_process (record {
      node = node;
      sortitioner = sortitioner;
      trans = none;
      listener = none;
      rpc_handler = none;
      bound = [];
    })
  ]
