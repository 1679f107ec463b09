-- ===== src/Node/Broadcast.antt =====
-- Sending and receiving: `broadcast`, `verifySigED25519` and the dispatch of `HandleMsgsLoop` of
-- core/node.go.
pub mod Reach
mod Tests
use simple_ft.Base.{
  ℕ, ℤ, pos, GoString, Slice, codes, itoa, Map, get, nat_key, string_key, Bool, true, false, List,
  [], ◌∷◌, ◌++◌, Option, none, some,
}
use simple_ft.Data.{Message, proposal, vote, sortition}
use simple_ft.Hashing.{Primitives, message, encode, sign_ed25519, verify_sign_ed25519}
use simple_ft.Node.{Node}

-- What becomes of an attempt to send to an address: `GetConn` fails, `SendMsg` fails, the message
-- goes out and `ReturnConn` fails, or all goes well.
pub data Link : Type 0 where
  no_conn send_fails return_fails works : Link

-- A message that has gone out to an address.
pub record Delivery : Type 0 where
  pub address : GoString
  pub content : Message
  pub sig : List ℕ

-- `addr + ":" + strconv.Itoa(n.clusterPort[name])`; a missing port reads 0.
unfoldable pub addr_with_port : Map GoString ℤ → GoString → GoString → GoString
addr_with_port ports name addr = addr ++ (codes ":" ++ itoa port)
  where
    port : ℤ
    port = elim (get name ports) [ none ↦ pos 0 | some k ↦ k ]

-- The loop over the cluster: what went out, and whether the loop ended without an error.
unfoldable pub send_loop :
    (GoString → Link)
    → Map GoString ℤ
    → Map GoString Bool
    → Message
    → List ℕ
    → List (GoString × GoString)
    → List Delivery × Bool
send_loop link ports exc msg sig [] = ([], true)
send_loop link ports exc msg sig ((name, addr) ∷ rest) =
    let to = addr_with_port ports name addr in
    let out : Delivery = record { address = to; content = msg; sig = sig } in
    let next = send_loop link ports exc msg sig rest in
    elim (get to exc) [
      | some b ↦ next
      | none ↦ elim (link to) [
        | no_conn ↦ ([], false)
        | send_fails ↦ ([], false)
        | return_fails ↦ (out ∷ [], false)
        | works ↦ (out ∷ next.0, next.1)
      ]
    ]

module _ (p : Primitives) where
  -- `broadcast`, with the cluster in the order of the range statement; `none` is a panic.
  unfoldable pub broadcast :
      (GoString → Link)
      → Node
      → Message
      → Map GoString Bool
      → List (GoString × GoString)
      → Option (List Delivery × Bool)
  unfolding send_loop
  broadcast link n msg exc cluster = elim (encode p (message msg)) [
    | none ↦ some ([], false)
    | some bytes ↦ elim (sign_ed25519 p n.private_key bytes) [
      | none ↦ none
      | some sig ↦ some (send_loop link n.cluster_port exc msg sig cluster)
    ]
  ]

  -- Whether `broadcast` panics, which it does before anything goes out.
  unfoldable pub broadcast_panics : Node → Message → Bool
  broadcast_panics n msg = elim (encode p (message msg)) [
    | none ↦ false
    | some bytes ↦ elim (sign_ed25519 p n.private_key bytes) [ none ↦ true | some sig ↦ false ]
  ]

  -- `verifySigED25519`; `none` is a panic.
  unfoldable pub verify_sig_ed25519 : Node → GoString → Message → Slice ℕ → Option Bool
  verify_sig_ed25519 n peer msg sig = elim (get peer n.public_key_map) [
    | none ↦ some false
    | some public_key ↦ elim (encode p (message msg)) [
      | none ↦ some false
      | some bytes ↦ verify_sign_ed25519 p public_key bytes sig
    ]
  ]

-- The node that a message names as its author.
abbrev pub author : Message → GoString
author (proposal b) = b.proposer
author (vote v) = v.sender
author (sortition s) = s.sortitioner
