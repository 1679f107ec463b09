-- ===== src/Node/Broadcast/Reach.antt =====
-- What `broadcast` sends, and that receivers accept it.
use simple_ft.Base.{
  ◌↔◌, none, some, true, Bool, List, ℤ, ◌≡◌, GoString, Map, get, string_key, Bool, true, false,
  List, [], ◌∷◌, ◌++◌, map, none, some, arith,
}
use simple_ft.Data.{Message}
use simple_ft.Hashing.{Primitives}
use simple_ft.Node.{Node}
use simple_ft.Node.Broadcast.{
  Link, no_conn, send_fails, return_fails, works, Delivery, addr_with_port, broadcast,
  broadcast_panics, Delivery,
}

-- The addresses of the cluster that are not excluded.
abbrev pub addressed :
    Map GoString ℤ → Map GoString Bool → List (GoString × GoString) → List GoString
addressed ports exc [] = []
addressed ports exc ((name, addr) ∷ rest) = elim (get (addr_with_port ports name addr) exc) [
  | some b ↦ addressed ports exc rest
  | none ↦ addr_with_port ports name addr ∷ addressed ports exc rest
]

-- What went out went to the first of the addresses, all of them if there was no error, and there is
-- none if every attempt works.
abbrev pub InOrder : (GoString → Link) → List GoString → List Delivery × Bool → Type 0
InOrder link addresses (out, ended) =
    ((missed : List GoString) × (map (λ d. d.address) out ++ missed ≡ addresses)
      × (ended ≡ true → missed ≡ []))
    × (((a : GoString) → link a ≡ works) → ended ≡ true)

abbrev attempted : Link → Delivery → List Delivery × Bool → List Delivery × Bool
attempted l out next = elim l [
  | no_conn ↦ ([], false)
  | send_fails ↦ ([], false)
  | return_fails ↦ (out ∷ [], false)
  | works ↦ (out ∷ next.0, next.1)
]

module _ (p : Primitives) where
  -- `broadcast` panics where `broadcast_panics` says so, and nowhere else.
  pub broadcast_panics_iff :
      (link : GoString → Link) (n : Node) (msg : Message) (exc : Map GoString Bool)
      (cluster : List (GoString × GoString))
      → (broadcast p link n msg exc cluster ≡ none) ↔ (broadcast_panics p n msg ≡ true)
  unfolding broadcast broadcast_panics
  broadcast_panics_iff link n msg exc cluster = ground arith
