-- ===== src/Transport/Establish/Tests.antt =====
-- The connections of a node at its start, with a cluster of two.
use simple_ft.Base.{
  ℤ, pos, ◌≡◌, ◌<◌, refl, GoString, codes, true, Map, List, [], ◌∷◌, some, All, length,
}
use simple_ft.Transport.{NetworkTransport, new_network_transport, idle}
use simple_ft.Transport.Wire.Tests.{toy_codec}
use simple_ft.Transport.Sharing.{run, start}
use simple_ft.Transport.Sharing.Owned.{Owned}
use simple_ft.Transport.Sharing.Runs.{run-start-Owned}
use simple_ft.Transport.Transmit.Refines.{addresses}
use simple_ft.Transport.Establish.{establish_p2p_conns}
use simple_ft.Transport.Establish.Filled.{establish_p2p_conns-Filled}

abbrev ports : Map GoString ℤ
ports = (codes "n1", pos 7) ∷ (codes "n2", pos 8) ∷ []

abbrev cluster : List (GoString × GoString)
cluster = (codes "n1", codes "a") ∷ (codes "n2", codes "a") ∷ []

abbrev pool : NetworkTransport
pool = (run toy_codec (start (pos 2)) []).transport

establish_p2p_conns-Filled_example :
    (later : NetworkTransport) × (establish_p2p_conns (λ a. true) ports cluster (some pool)
      ≡ (some later, true))
    × All (λ a. 0 < length (idle a later)) (addresses ports cluster)
    × Owned later []
unfolding run new_network_transport
establish_p2p_conns-Filled_example =
    establish_p2p_conns-Filled 1 [] (λ a. true) ports cluster pool (λ a. refl)
      (run-start-Owned toy_codec (pos 2) []).0 refl refl
