-- ===== src/Transport/Establish/Filled.antt =====
-- After `EstablishP2PConns` a connection waits for each node of the cluster.
use simple_ft.Base.{
  ℕ, suc, ◌≤◌, ◌<◌, ◌≡◌, refl, sym, ap, subst, ◌∙◌, inl, inr, ℤ, pos, lt_int, lt→ltb, GoString, Map,
  put, key, string_key, Bool, true, false, not, ◌&&◌, if◌then◌else◌, Option-cases, List, [], ◌∷◌,
  ◌++◌, Option, none, some, length, length-append, All, arith, pick,
}
use simple_ft.Node.Broadcast.{works, addr_with_port}
use simple_ft.Transport.{
  NetworkTransport, idle, split_last, dial_conn, get_conn, release, return_conn, all_sent,
}
use simple_ft.Transport.Sharing.Owned.{
  Owned, capacity, split_last-empty, split_last-total, idle-put_self, pick-Owned,
}
use simple_ft.Transport.Sharing.Steps.{return_conn-Owned}
use simple_ft.Transport.Transmit.{link_of}
use simple_ft.Transport.Transmit.Rounds.{get_conn-cases, return_conn-Returned}
use simple_ft.Transport.Transmit.Refines.{addresses}
use simple_ft.Transport.Establish.{establish_loop, establish_p2p_conns}

-- A transport that is not shut down and has room for a connection at each target.
abbrev pub Open : ℕ → NetworkTransport → Type 0
Open m t = (t.shutdown ≡ false) × (t.max_pool ≡ pos (suc m))

get_conn-Open :
    (m : ℕ) (dials : Bool) (to : GoString) (t : NetworkTransport)
    → Open m t
    → Open m (get_conn dials to t).0
unfolding get_conn dial_conn
get_conn-Open m true to t h = (ground (arith, h.0), ground (arith, h.1))
get_conn-Open m false to t h = (ground (arith, h.0), ground (arith, h.1))

return_conn-Open : (m i : ℕ) (t : NetworkTransport) → Open m t → Open m (return_conn i t).0
unfolding return_conn release
return_conn-Open m i t h = (ground (arith, h.0), ground (arith, h.1))

-- `GetConn` leaves room at the target.
get_conn-room :
    (m : ℕ) (to : GoString) (held : List ℕ) (t : NetworkTransport)
    → Owned t held
    → Open m t
    → length (idle to (get_conn true to t).0) < suc m
unfolding get_conn dial_conn
get_conn-room m to held t o h = elim (Option-cases (split_last (idle to t))) [
  | inl fails ↦ rw (fails, get_conn) (omega (arith, ap length (split_last-empty (idle to t) fails)))
  | inr ((front, last), found) ↦
      rw (found, get_conn)
        (omega (
          arith,
          ap length (idle-put_self to to front t refl),
          (split_last-total (idle to t) front last 0 found).1,
          subst (λ z. length (idle to t) ≤ capacity z) h.1 (o.bounded to),
        ))
]

-- A connection that goes back where there is room waits at its target.
return_conn-waits :
    (m i : ℕ) (t : NetworkTransport)
    → Open m t
    → length (idle (t.conns i).target t) < suc m
    → 0 < length (idle (t.conns i).target (return_conn i t).0)
unfolding return_conn
return_conn-waits m i t h room = omega (
  arith,
  ap length (
      ap (λ (b : Bool). idle to (if b then pooled else release i t).0) fits
      ∙ idle-put_self to to (idle to t ++ i ∷ []) t refl),
  length-append (idle to t) (i ∷ []),
)
  where
    to : GoString
    to = (t.conns i).target

    pooled : NetworkTransport × Bool
    pooled = (record t { conn_pool = put to (idle to t ++ i ∷ []) t.conn_pool }, true)

    fits : not t.shutdown && lt_int (length (idle to t)) t.max_pool ≡ true
    fits =
        subst (λ z. not t.shutdown && lt_int (length (idle to t)) z ≡ true) (sym h.1)
          (subst (λ (b : Bool). not b && lt_int (length (idle to t)) (pos (suc m)) ≡ true) (sym h.0)
            (lt→ltb (length (idle to t)) (suc m) room))

module _ (m : ℕ) (held : List ℕ) where
  -- A round leaves a connection at its target, and none is missing where one was.
  record Established (to : GoString) (t later : NetworkTransport) : Type 0 where
    owned : Owned later held
    stays_open : Open m later
    waits : 0 < length (idle to later)
    kept : (a : GoString) → 0 < length (idle a t) → 0 < length (idle a later)

  dials-works : (to : GoString) (t : NetworkTransport) → link_of true all_sent to t ≡ works
  unfolding link_of
  dials-works to t = ground arith

  round_made :
      (to : GoString) (t : NetworkTransport)
      → Owned t held
      → Open m t
      → (later : NetworkTransport) × (i : ℕ) × (get_conn true to t ≡ (later, some i))
        × Established to t (return_conn i later).0
  unfolding pick
  round_made to t o h = elim (get_conn-cases true all_sent to held t o) [
    | inl (link, fails) ↦ absurd (ground (arith, dials-works to t, link))
    | inr (later, i, got, link, k) ↦
        let opened = (pick-Owned later (i ∷ held) 0 i held k.owned refl).2 in
        let back = return_conn-Returned i to later k.goes_to opened in
        let still =
          subst (λ (g : NetworkTransport × Option ℕ). Open m g.0) got
            (get_conn-Open m true to t h) in
        let room =
          subst (λ (g : NetworkTransport × Option ℕ). length (idle to g.0) < suc m) got
            (get_conn-room m to held t o h) in
        let here =
          subst (λ a. 0 < length (idle a (return_conn i later).0)) k.goes_to
            (return_conn-waits m i later still
              (subst (λ a. length (idle a later) < suc m) (sym k.goes_to) room)) in
        (
          later,
          i,
          got,
          record {
            owned = return_conn-Owned i 0 (i ∷ held) held later k.owned refl;
            stays_open = return_conn-Open m i later still;
            waits = here;
            kept = λ a before. elim (key to a) [
              | yes same ↦ subst (λ b. 0 < length (idle b (return_conn i later).0)) same here
              | no other ↦
                  omega
                    (arith, before, ap length (back.idle_same a other ∙ k.apart.idle_kept a other))
            ];
          },
        )
  ]

  -- How the loop has to end.
  abbrev Filled :
      Map GoString ℤ
      → List (GoString × GoString)
      → NetworkTransport
      → NetworkTransport × Bool
      → Type 0
  Filled ports cluster t r =
      (r.1 ≡ true)
      × All (λ a. 0 < length (idle a r.0)) (addresses ports cluster)
      × Owned r.0 held
      × ((a : GoString) → 0 < length (idle a t) → 0 < length (idle a r.0))

  establish_loop-Filled :
      (dials : GoString → Bool) (ports : Map GoString ℤ) (cluster : List (GoString × GoString))
      (t : NetworkTransport)
      → ((a : GoString) → dials a ≡ true)
      → Owned t held
      → Open m t
      → Filled ports cluster t (establish_loop dials ports cluster t)
  unfolding establish_loop
  establish_loop-Filled dials ports [] t all o h = (refl, tt, o, λ a w. w)
  establish_loop-Filled dials ports ((name, addr) ∷ rest) t all o h =
      let to = addr_with_port ports name addr in
      let (later, i, got, r) = round_made to t o h in
      let (fine, wait, owned, kept) =
        establish_loop-Filled dials ports rest (return_conn i later).0 all r.owned r.stays_open in
      let next = establish_loop dials ports rest in
      let from = λ (g : NetworkTransport × Option ℕ). elim g.1 as (λ x. NetworkTransport × Bool) [
        | none ↦ (g.0, false)
        | some j ↦ next (return_conn j g.0).0
      ] in
      let same : establish_loop dials ports ((name, addr) ∷ rest) t ≡ next (return_conn i later).0 =
        ap (λ b. from (get_conn b to t)) (all to) ∙ ap from got in
      subst (Filled ports ((name, addr) ∷ rest) t) (sym same)
        (fine, (kept to r.waits, wait), owned, λ a w. kept a (r.kept a w))

-- If dialing works, the transport is not shut down and its pool has room for a connection at each
-- target, `EstablishP2PConns` gives no error, and after it a connection waits in the pool for every
-- node of the cluster; the connections still have one owner each.
pub establish_p2p_conns-Filled :
    (m : ℕ) (held : List ℕ) (dials : GoString → Bool) (ports : Map GoString ℤ)
    (cluster : List (GoString × GoString)) (t : NetworkTransport)
    → ((a : GoString) → dials a ≡ true)
    → Owned t held
    → t.shutdown ≡ false
    → t.max_pool ≡ pos (suc m)
    → (later : NetworkTransport) × (establish_p2p_conns dials ports cluster (some t)
        ≡ (some later, true))
      × All (λ a. 0 < length (idle a later)) (addresses ports cluster)
      × Owned later held
unfolding establish_p2p_conns
establish_p2p_conns-Filled m held dials ports cluster t all o shut room =
    let (fine, wait, owned, kept) =
      establish_loop-Filled m held dials ports cluster t all o (shut, room) in
    (
      (establish_loop dials ports cluster t).0,
      ap (λ b. (some (establish_loop dials ports cluster t).0, b)) fine,
      wait,
      owned,
    )
