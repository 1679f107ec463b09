-- ===== src/Transport/Transmit/Tests.antt =====
-- The loop of `broadcast` over the pool, on a cluster of two.
use simple_ft.Base.{
  itoa, digits, digits_loop, get, bytes_discrete, ℕ_discrete, ℤ, pos, ◌≡◌, GoString, codes, true,
  Map, List, [], ◌∷◌, some, All,
}
use simple_ft.Data.{Message, sortition, new_sortition_msg}
use simple_ft.Node.Broadcast.{Delivery, send_loop, addr_with_port}
use simple_ft.Transport.{NetworkTransport, all_sent}
use simple_ft.Transport.Wire.{frame}
use simple_ft.Transport.Wire.Tests.{toy_codec}
use simple_ft.Transport.Sharing.{run, start}
use simple_ft.Transport.Sharing.Runs.{run-start-Owned}
use simple_ft.Transport.Transmit.{transmit, link_of}
use simple_ft.Transport.Transmit.Rounds.{Out}
use simple_ft.Transport.Transmit.Refines.{Distinct, addresses, transmit-send_loop}

abbrev ports : Map GoString ℤ
ports = (codes "n1", pos 7) ∷ (codes "n2", pos 8) ∷ []

abbrev cluster : List (GoString × GoString)
cluster = (codes "n1", codes "a") ∷ (codes "n2", codes "a") ∷ []

abbrev drawn_one : Message
drawn_one = sortition (new_sortition_msg (codes "n1") 5 1)

abbrev pool : NetworkTransport
pool = (run toy_codec (start (pos 2)) []).transport

two_addresses : Distinct (addresses ports cluster)
unfolding addr_with_port itoa digits digits_loop get bytes_discrete ℕ_discrete
two_addresses = (((λ e. cc), tt), (tt, tt))

transmit-send_loop_example :
    let said = send_loop (λ a. link_of true all_sent a pool) ports [] drawn_one (9 ∷ []) cluster in
    let bytes = frame toy_codec (record { msg = drawn_one; sig = some (9 ∷ []) }) in
    let r = transmit (λ a. true) (λ a. all_sent) ports [] bytes cluster pool in
    (r.1 ≡ said.1) × All (λ (d : Delivery). Out d.address bytes r.0) said.0
unfolding run
transmit-send_loop_example =
    transmit-send_loop toy_codec (λ a. true) (λ a. all_sent) ports [] drawn_one (9 ∷ []) [] cluster
      pool (run-start-Owned toy_codec (pos 2) []).0 two_addresses
