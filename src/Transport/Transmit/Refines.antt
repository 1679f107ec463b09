-- ===== src/Transport/Transmit/Refines.antt =====
-- The loop of `broadcast` over the pool does what `send_loop` of Node/Broadcast.antt says.
use simple_ft.Base.{
  ℕ, ℤ, ◌≡◌, ◌≢◌, refl, sym, ap, subst, ◌∙◌, inl, inr, GoString, Map, get, string_key, Bool, false,
  if◌then◌else◌, Option-cases, List, [], ◌∷◌, none, some, All, All-mono, arith,
}
use simple_ft.Data.{Message}
use simple_ft.Node.Broadcast.{
  Link, no_conn, send_fails, return_fails, works, Delivery, addr_with_port, send_loop,
}
use simple_ft.Transport.{NetworkTransport, Sending}
use simple_ft.Transport.Wire.{Codec, frame}
use simple_ft.Transport.Sharing.Owned.{Owned}
use simple_ft.Transport.Transmit.{send_to, transmit, link_of}
use simple_ft.Transport.Transmit.Rounds.{Apart, Out, Out-kept, Agrees, send_to-Agrees}

-- The addresses of a cluster, with their ports.
abbrev pub addresses : Map GoString ℤ → List (GoString × GoString) → List GoString
addresses ports [] = []
addresses ports ((name, addr) ∷ rest) = addr_with_port ports name addr ∷ addresses ports rest

-- No address stands twice.
abbrev pub Distinct : List GoString → Type 0
Distinct [] = Unit
Distinct (a ∷ rest) = All (λ b. a ≢ b) rest × Distinct rest

-- The link to another address stays the same.
link_of-Apart :
    (dials : Bool) (network : Sending) (to a : GoString) (t later : NetworkTransport)
    → Apart to t later
    → to ≢ a
    → link_of dials network a later ≡ link_of dials network a t
unfolding link_of
link_of-Apart dials network to a t later p other = rw (p.idle_kept a other, link_of) refl

module _ (dials : GoString → Bool) (network : GoString → Sending) (ports : Map GoString ℤ)
    (exc : Map GoString Bool) (bytes : List ℕ) (msg : Message) (sig : List ℕ) (held : List ℕ) where
  abbrev AsLinked : (GoString → Link) → NetworkTransport → List GoString → Type 0
  AsLinked link t = All (λ a. link a ≡ link_of (dials a) (network a) a t)

  -- A loop that ends at `r` after the rounds for these addresses does what the other loop says.
  abbrev Refines :
      NetworkTransport → List GoString → List Delivery × Bool → NetworkTransport × Bool → Type 0
  Refines t names said r =
      (r.1 ≡ said.1)
      × All (λ (d : Delivery). Out d.address bytes r.0) said.0
      × ((a : GoString) → All (λ b. b ≢ a) names → Out a bytes t → Out a bytes r.0)

  module _ (link : GoString → Link) (name addr : GoString) (rest : List (GoString × GoString))
      (t : NetworkTransport) where
    abbrev to : GoString
    to = addr_with_port ports name addr

    abbrev sent : NetworkTransport × Bool
    sent = send_to (dials to) (network to) bytes to t

    abbrev rest_from : NetworkTransport → NetworkTransport × Bool
    rest_from = transmit dials network ports exc bytes rest

    abbrev rest_said : List Delivery × Bool
    rest_said = send_loop link ports exc msg sig rest

    abbrev mail : Delivery
    mail = record { address = to; content = msg; sig = sig }

    abbrev by_name : Link → List Delivery × Bool
    by_name no_conn = ([], false)
    by_name send_fails = ([], false)
    by_name return_fails = (mail ∷ [], false)
    by_name works = (mail ∷ rest_said.0, rest_said.1)

    link_is :
        get to exc ≡ none
        → (l : Link) → link to ≡ l
        → send_loop link ports exc msg sig ((name, addr) ∷ rest) ≡ by_name l
    unfolding send_loop
    link_is sends no_conn e = ground (arith, sends, e)
    link_is sends send_fails e = ground (arith, sends, e)
    link_is sends return_fails e = ground (arith, sends, e)
    link_is sends works e = ground (arith, sends, e)

    -- A round that is made: what both loops do then.
    given :
        {said : List Delivery × Bool} {r : NetworkTransport × Bool}
        → get to exc ≡ none
        → send_loop link ports exc msg sig ((name, addr) ∷ rest) ≡ said
        → (if sent.1 then rest_from sent.0 else sent) ≡ r
        → Refines t (addresses ports ((name, addr) ∷ rest)) said r
        → Refines t
            (addresses ports ((name, addr) ∷ rest))
            (send_loop link ports exc msg sig ((name, addr) ∷ rest))
            (transmit dials network ports exc bytes ((name, addr) ∷ rest) t)
    unfolding transmit
    given sends says gives h =
        subst
          (λ x.
            Refines t (addresses ports ((name, addr) ∷ rest)) x
              (transmit dials network ports exc bytes ((name, addr) ∷ rest) t))
          (sym says)
          (subst (Refines t (addresses ports ((name, addr) ∷ rest)) _)
            (sym (
              ap
                (λ o. elim o [
                  | some b ↦ rest_from t
                  | none ↦ if sent.1 then rest_from sent.0 else sent
                ])
                sends
              ∙ gives))
            h)

    moved :
        (bs : List GoString)
        → Apart to t sent.0
        → All (λ b. to ≢ b) bs
        → AsLinked link t bs
        → AsLinked link sent.0 bs
    moved [] changed others h = tt
    moved (b ∷ bs) changed others h = (
      h.0 ∙ sym (link_of-Apart (dials b) (network b) to b t sent.0 changed others.0),
      moved bs changed others.1 h.1,
    )

    -- A round that is made, for each link.
    round-Refines :
        (Owned sent.0 held
          → AsLinked link sent.0 (addresses ports rest)
          → Refines sent.0
              (addresses ports rest)
              (send_loop link ports exc msg sig rest)
              (transmit dials network ports exc bytes rest sent.0))
        → get to exc ≡ none
        → All (λ b. to ≢ b) (addresses ports rest)
        → AsLinked link t (addresses ports rest)
        → (l : Link) → link to ≡ l
        → Apart to t sent.0
        → Agrees bytes to held l sent
        → Refines t
            (addresses ports ((name, addr) ∷ rest))
            (send_loop link ports exc msg sig ((name, addr) ∷ rest))
            (transmit dials network ports exc bytes ((name, addr) ∷ rest) t)
    round-Refines later_rounds sends apart names works e changed (fine, owned, out) =
        let (same, later, kept) =
          later_rounds owned (moved (addresses ports rest) changed apart names) in
        given sends (link_is sends works e) (ap (λ b. if b then rest_from sent.0 else sent) fine) (
          same,
          (
            kept to
                (All-mono (λ b. to ≢ b) (λ b. b ≢ to) (λ b h e. h (sym e)) (addresses ports rest)
                  apart)
                out,
            later,
          ),
          λ a others before. kept a others.1 (Out-kept to a bytes t sent.0 changed others.0 before),
        )
    round-Refines later_rounds sends apart names return_fails e changed (wrong, out) =
        given sends (link_is sends return_fails e)
          (ap (λ b. if b then rest_from sent.0 else sent) wrong)
          (
            wrong,
            (out, tt),
            λ a others before. Out-kept to a bytes t sent.0 changed others.0 before,
          )
    round-Refines later_rounds sends apart names no_conn e changed wrong =
        given sends (link_is sends no_conn e) (ap (λ b. if b then rest_from sent.0 else sent) wrong)
          (wrong, tt, λ a others before. Out-kept to a bytes t sent.0 changed others.0 before)
    round-Refines later_rounds sends apart names send_fails e changed wrong =
        given sends (link_is sends send_fails e)
          (ap (λ b. if b then rest_from sent.0 else sent) wrong)
          (wrong, tt, λ a others before. Out-kept to a bytes t sent.0 changed others.0 before)

  transmit-Refines :
      (link : GoString → Link) (cluster : List (GoString × GoString)) (t : NetworkTransport)
      → Owned t held
      → Distinct (addresses ports cluster)
      → AsLinked link t (addresses ports cluster)
      → Refines t
          (addresses ports cluster)
          (send_loop link ports exc msg sig cluster)
          (transmit dials network ports exc bytes cluster t)
  unfolding send_loop transmit
  transmit-Refines link [] t o apart names = (refl, tt, λ a others out. out)
  transmit-Refines link ((name, addr) ∷ rest) t o apart names =
      elim (Option-cases (get (addr_with_port ports name addr) exc)) [
        | inr (b, skip) ↦
            let (same, out, kept) = transmit-Refines link rest t o apart.1 names.1 in
            rw (skip, send_loop, transmit) (same, out, λ a others before. kept a others.1 before)
        | inl sends ↦
            let to = addr_with_port ports name addr in
            let (changed, agrees) = send_to-Agrees bytes to held (dials to) (network to) t o in
            round-Refines link name addr rest t
              (λ owned others. transmit-Refines link rest _ owned apart.1 others) sends apart.0
              names.1 (link to) refl changed
              (subst (λ l. Agrees bytes to held l (send_to (dials to) (network to) bytes to t))
                (sym names.0) agrees)
      ]

  linked :
      (t : NetworkTransport) (names : List GoString)
      → AsLinked (λ a. link_of (dials a) (network a) a t) t names
  linked t [] = tt
  linked t (a ∷ names) = (refl, linked t names)

-- The loop of `broadcast` over the pool refines the loop that is told what becomes of each attempt to
-- send: with the links that the pool, dialing and the network come to, both end with the same
-- result, and for each message that the one says went out, its frame is the last that has gone out
-- on some connection to its address. This holds if the addresses of the cluster are all different, and
-- for any pool and goroutines whose connections have one owner each.
pub transmit-send_loop :
    (c : Codec) (dials : GoString → Bool) (network : GoString → Sending) (ports : Map GoString ℤ)
    (exc : Map GoString Bool) (msg : Message) (sig : List ℕ) (held : List ℕ)
    (cluster : List (GoString × GoString)) (t : NetworkTransport)
    → Owned t held
    → Distinct (addresses ports cluster)
    → let said = send_loop (λ a. link_of (dials a) (network a) a t) ports exc msg sig cluster in
      let bytes = frame c (record { msg = msg; sig = some sig }) in
      let r = transmit dials network ports exc bytes cluster t in
      (r.1 ≡ said.1) × All (λ (d : Delivery). Out d.address bytes r.0) said.0
transmit-send_loop c dials network ports exc msg sig held cluster t o apart =
    let bytes = frame c (record { msg = msg; sig = some sig }) in
    let (same, out, kept) =
      transmit-Refines dials network ports exc bytes msg sig held
        (λ a. link_of (dials a) (network a) a t) cluster t o apart
        (linked dials network ports exc bytes msg sig held t (addresses ports cluster)) in
    (same, out)
