-- ===== src/Transport/Transmit/Rounds.antt =====
-- One round of the loop of `broadcast` over the pool.
use simple_ft.Base.{
  take, ℕ, ◌+◌, ◌≤◌, ◌<◌, ◌≡◌, ◌≢◌, refl, sym, ap, subst, ◌∙◌, ◌⊎◌, inl, inr, GoString, Bool, true,
  false, not, ◌&&◌, if◌then◌else◌, Bool-cases, Option-cases, ltb→lt, lt_int, List, [], ◌∷◌, ◌++◌,
  Option, none, some, length, pick, put, string_key, arith,
}
use simple_ft.Node.Broadcast.{Link, no_conn, send_fails, return_fails, works}
use simple_ft.Transport.{
  NetworkTransport, NetConn, idle, set_conn, split_last, dial_conn, get_conn, release, return_conn,
  send_frame, Sending, all_sent, fails_at,
}
use simple_ft.Transport.Sharing.Owned.{
  Owned, pick-Owned, set_conn-at, set_conn-past, split_last-total, idle-put_ne,
}
use simple_ft.Transport.Sharing.Steps.{
  Gets, Sends, get_conn-Owned, send_frame-Owned, return_conn-Owned,
}
use simple_ft.Transport.Transmit.{send_to, link_with, link_of}

-- What stays as it is at the other addresses.
pub record Apart (to : GoString) (t later : NetworkTransport) : Type 0 where
  pub idle_kept : (a : GoString) → to ≢ a → idle a later ≡ idle a t
  pub conns_kept : (j : ℕ) → j < t.next_conn → to ≢ (t.conns j).target → later.conns j ≡ t.conns j
  pub next_kept : t.next_conn ≤ later.next_conn

-- The frame is the last that has gone out on some connection to the address.
pub record Out (to : GoString) (frame : List ℕ) (t : NetworkTransport) : Type 0 where
  pub conn : ℕ
  pub before : List ℕ
  pub was_made : conn < t.next_conn
  pub goes_to : (t.conns conn).target ≡ to
  pub ends_with : (t.conns conn).sent ≡ before ++ frame

pub Out-kept :
    (to a : GoString) (frame : List ℕ) (t later : NetworkTransport)
    → Apart to t later
    → to ≢ a
    → Out a frame t
    → Out a frame later
Out-kept to a frame t later p other o = record {
  conn = o.conn;
  before = o.before;
  was_made = omega (arith, o.was_made, p.next_kept);
  goes_to = ap (λ x. x.target) same ∙ o.goes_to;
  ends_with = ap (λ x. x.sent) same ∙ o.ends_with;
}
  where
    same : later.conns o.conn ≡ t.conns o.conn
    same = p.conns_kept o.conn o.was_made (λ e. other (e ∙ o.goes_to))

-- What a goroutine has that took a connection.
pub record Taken (to : GoString) (held : List ℕ) (t later : NetworkTransport) (i : ℕ) : Type 0 where
  pub apart : Apart to t later
  pub owned : Owned later (i ∷ held)
  pub goes_to : (later.conns i).target ≡ to
  pub not_other : (j : ℕ) → j < t.next_conn → to ≢ (t.conns j).target → i ≢ j

pub get_conn-cases :
    (dials : Bool) (network : Sending) (to : GoString) (held : List ℕ) (t : NetworkTransport)
    → Owned t held
    → ((link_of dials network to t ≡ no_conn) × (get_conn dials to t ≡ (t, none)))
      ⊎ ((later : NetworkTransport) × (i : ℕ) × (get_conn dials to t ≡ (later, some i))
          × (link_of dials network to t ≡ link_with network)
          × Taken to held t later i)
unfolding get_conn dial_conn link_of
get_conn-cases dials network to held t o = elim (Option-cases (split_last (idle to t))) [
  | inl fails ↦ dialing dials fails (get_conn-Owned dials to t held o)
  | inr ((front, last), found) ↦ inr (
    record t { conn_pool = put to front t.conn_pool },
    last,
    ground (arith, found),
    ground (arith, found),
    record {
      apart = record {
        idle_kept = λ a other. idle-put_ne to a front t other;
        conns_kept = λ j l other. refl;
        next_kept = omega arith;
      };
      owned = taken front last found;
      goes_to = goes last front found;
      not_other =
          λ j l other e. other (sym (ap (λ x. (t.conns x).target) (sym e) ∙ goes last front found));
    },
  )
]
  where
    goes :
        (last : ℕ) (front : List ℕ)
        → split_last (idle to t) ≡ some (front, last)
        → (t.conns last).target ≡ to
    goes last front found =
        o.waits_at to last (ground (arith, (split_last-total (idle to t) front last last found).0))

    taken :
        (front : List ℕ) (last : ℕ)
        → split_last (idle to t) ≡ some (front, last)
        → Owned (record t { conn_pool = put to front t.conn_pool }) (last ∷ held)
    taken front last found =
        let got : get_conn dials to t
            ≡ (record t { conn_pool = put to front t.conn_pool }, some last) =
          ground (arith, found) in
        subst (Gets held) got (get_conn-Owned dials to t held o)

    fresh : NetConn
    fresh = record { target = to; is_open = true; sent = [] }

    dialed : NetworkTransport
    dialed = record t { conns = set_conn t.next_conn fresh t.conns; next_conn = t.next_conn + 1 }

    dialing :
        (b : Bool)
        → split_last (idle to t) ≡ none
        → Gets held (get_conn b to t)
        → ((link_of b network to t ≡ no_conn) × (get_conn b to t ≡ (t, none)))
          ⊎ ((later : NetworkTransport) × (i : ℕ) × (get_conn b to t ≡ (later, some i))
              × (link_of b network to t ≡ link_with network)
              × Taken to held t later i)
    dialing false fails h = inl (ground (arith, fails), ground (arith, fails))
    dialing true fails h =
        let made : get_conn true to t ≡ (dialed, some t.next_conn) = ground (arith, fails) in
        inr (
          dialed,
          t.next_conn,
          made,
          ground (arith, fails),
          record {
            apart = record {
              idle_kept = λ a other. refl;
              conns_kept =
                  λ j l other. set_conn-past t.next_conn j fresh t.conns (λ e. omega (arith, l, e));
              next_kept = omega arith;
            };
            owned = subst (Gets held) made h;
            goes_to = ap (λ x. x.target) (set_conn-at t.next_conn t.next_conn fresh t.conns refl);
            not_other = λ j l other e. omega (arith, l, e);
          },
        )

-- A connection that goes back changes nothing but itself and what waits at its target.
pub record Returned (i : ℕ) (to : GoString) (t : NetworkTransport) (r : NetworkTransport × Bool)
    : Type 0 where
  pub works_well : r.1 ≡ true
  pub idle_same : (a : GoString) → to ≢ a → idle a r.0 ≡ idle a t
  pub conns_same : (j : ℕ) → i ≢ j → r.0.conns j ≡ t.conns j
  pub target_same : (r.0.conns i).target ≡ (t.conns i).target
  pub sent_same : (r.0.conns i).sent ≡ (t.conns i).sent
  pub next_same : r.0.next_conn ≡ t.next_conn

pub return_conn-Returned :
    (i : ℕ) (to : GoString) (t : NetworkTransport)
    → (t.conns i).target ≡ to
    → (t.conns i).is_open ≡ true
    → Returned i to t (return_conn i t)
unfolding return_conn release
return_conn-Returned i to t goes opened =
    elim (Bool-cases (not t.shutdown && lt_int (length (idle (t.conns i).target t)) t.max_pool)) [
      | inl room ↦
          subst (Returned i to t) (sym (ap (λ b. if b then pooled else release i t) room)) (record {
            works_well = refl;
            idle_same = λ a other. idle-put_ne (t.conns i).target a _ t (λ e. other (sym goes ∙ e));
            conns_same = λ j other. refl;
            target_same = refl;
            sent_same = refl;
            next_same = refl;
          })
      | inr full ↦
          subst (Returned i to t) (sym (ap (λ b. if b then pooled else release i t) full)) (record {
            works_well = opened;
            idle_same = λ a other. refl;
            conns_same = λ j other. set_conn-past i j shut t.conns other;
            target_same = ap (λ x. x.target) (set_conn-at i i shut t.conns refl);
            sent_same = ap (λ x. x.sent) (set_conn-at i i shut t.conns refl);
            next_same = refl;
          })
    ]
  where
    shut : NetConn
    shut = record (t.conns i) { is_open = false }

    pooled : NetworkTransport × Bool
    pooled = (
      record t {
        conn_pool = put (t.conns i).target (idle (t.conns i).target t ++ i ∷ []) t.conn_pool;
      },
      true,
    )

module _ (frame : List ℕ) (to : GoString) (held : List ℕ) where
  -- How a round has to end, by the link.
  abbrev pub Agrees : Link → NetworkTransport × Bool → Type 0
  Agrees works r = (r.1 ≡ true) × Owned r.0 held × Out to frame r.0
  Agrees return_fails r = (r.1 ≡ false) × Out to frame r.0
  Agrees no_conn r = r.1 ≡ false
  Agrees send_fails r = r.1 ≡ false

  -- A round where there is a connection.
  sending-Agrees :
      (network : Sending) (t later : NetworkTransport) (i : ℕ)
      → Taken to held t later i
      → (r : NetworkTransport × Bool)
      → r ≡ (
          let out = send_frame network i frame later in
          if out.1 then return_conn i out.0 else (out.0, false))
      → Apart to t r.0 × Agrees (link_with network) r
  unfolding send_frame release pick
  sending-Agrees all_sent t later i k r e =
      let used = pick-Owned later (i ∷ held) 0 i held k.owned refl in
      let opened : (later.conns i).is_open ≡ true = used.2 in
      let wrote : send_frame all_sent i frame later ≡ (written, true) =
        ap (λ b. if b then (written, true) else ((release i later).0, false)) opened in
      let whole : r ≡ return_conn i written =
        e
        ∙ ap
            (λ (out : NetworkTransport × Bool).
              if out.1 then return_conn i out.0 else (out.0, false))
            wrote in
      let owned : Owned written (i ∷ held) =
        subst (Sends held i) wrote
          (send_frame-Owned all_sent i frame (i ∷ held) held 0 later k.owned refl) in
      let at_i = set_conn-at i i longer later.conns refl in
      let back =
        return_conn-Returned i to written (ap (λ x. x.target) at_i ∙ k.goes_to)
          (ap (λ x. x.is_open) at_i ∙ opened) in
      subst (λ x. Apart to t x.0 × Agrees works x) (sym whole)
        (
          record {
            idle_kept = λ a other. back.idle_same a other ∙ k.apart.idle_kept a other;
            conns_kept = λ j l other.
                back.conns_same j (k.not_other j l other)
                ∙ set_conn-past i j longer later.conns (k.not_other j l other)
                ∙ k.apart.conns_kept j l other;
            next_kept = omega (arith, back.next_same, k.apart.next_kept);
          },
          (
            back.works_well,
            return_conn-Owned i 0 (i ∷ held) held written owned refl,
            record {
              conn = i;
              before = (later.conns i).sent;
              was_made = omega (arith, back.next_same, ltb→lt i later.next_conn used.3);
              goes_to = back.target_same ∙ ap (λ x. x.target) at_i ∙ k.goes_to;
              ends_with = back.sent_same ∙ ap (λ x. x.sent) at_i;
            },
          ),
        )
    where
      longer : NetConn
      longer = record (later.conns i) { sent = (later.conns i).sent ++ frame }

      written : NetworkTransport
      written = record later { conns = set_conn i longer later.conns }
  sending-Agrees (fails_at s n) t later i k r e =
      let used = pick-Owned later (i ∷ held) 0 i held k.owned refl in
      let wrote : send_frame (fails_at s n) i frame later ≡ ((release i written).0, false) =
        ap (λ b. if b then ((release i written).0, false) else ((release i later).0, false))
          used.2 in
      let whole : r ≡ ((release i written).0, false) =
        e
        ∙ ap
            (λ (out : NetworkTransport × Bool).
              if out.1 then return_conn i out.0 else (out.0, false))
            wrote in
      subst (λ x. Apart to t x.0 × Agrees send_fails x) (sym whole)
        (
          record {
            idle_kept = k.apart.idle_kept;
            conns_kept = λ j l other.
                set_conn-past i j _ written.conns (k.not_other j l other)
                ∙ set_conn-past i j longer later.conns (k.not_other j l other)
                ∙ k.apart.conns_kept j l other;
            next_kept = k.apart.next_kept;
          },
          refl,
        )
    where
      longer : NetConn
      longer = record (later.conns i) { sent = (later.conns i).sent ++ take n frame }

      written : NetworkTransport
      written = record later { conns = set_conn i longer later.conns }

  pub send_to-Agrees :
      (dials : Bool) (network : Sending) (t : NetworkTransport)
      → Owned t held
      → Apart to t (send_to dials network frame to t).0
        × Agrees (link_of dials network to t) (send_to dials network frame to t)
  unfolding send_to
  send_to-Agrees dials network t o = elim (get_conn-cases dials network to held t o) [
    | inl (link, fails) ↦
        subst
          (λ l.
            Apart to t (send_to dials network frame to t).0
            × Agrees l (send_to dials network frame to t))
          (sym link)
          (subst (λ x. Apart to t x.0 × (x.1 ≡ false)) (sym (ap from fails))
            (
              record {
                idle_kept = λ a other. refl;
                conns_kept = λ j l other. refl;
                next_kept = omega arith;
              },
              refl,
            ))
    | inr (later, i, got, link, k) ↦
        subst
          (λ l.
            Apart to t (send_to dials network frame to t).0
            × Agrees l (send_to dials network frame to t))
          (sym link)
          (sending-Agrees network t later i k (send_to dials network frame to t) (ap from got))
  ]
    where
      from : NetworkTransport × Option ℕ → NetworkTransport × Bool
      from got = elim got.1 [
        | none ↦ (got.0, false)
        | some i ↦
            let out = send_frame network i frame got.0 in
            if out.1 then return_conn i out.0 else (out.0, false)
      ]
