-- ===== src/Transport/Sharing/Steps.antt =====
-- `GetConn`, `SendMsg` and `ReturnConn` keep one owner for each connection.
use simple_ft.Base.{
  ℕ_discrete, take, ◌∙◌, ◌≢◌, if◌then◌else◌, ℕ, ◌+◌, ◌≤◌, ◌<◌, ◌≡◌, refl, ap, inl, inr, ℤ, pos,
  negsuc, lt_int, GoString, Bool, true, false, not, ◌&&◌, Bool-cases, Option-cases, List, [], ◌∷◌,
  ◌++◌, Option, none, some, length, length-append, ◌==◌, string_key, arith, pick, total-pick,
  total-append, occurrences, bit,
}
use simple_ft.Transport.{
  NetworkTransport, NetConn, idle, set_conn, split_last, dial_conn, get_conn, release, return_conn,
  send_frame, Sending, all_sent, fails_at,
}
use simple_ft.Transport.Wire.{frame}
use simple_ft.Transport.Sharing.Owned.{
  Owned, capacity, Unowned, nowhere, pick-Owned, less-Owned, write-Owned, move-Owned,
  split_last-total, set_conn-at, set_conn-past,
}

-- After `GetConn`, the goroutine holds what it gives.
abbrev pub Gets : List ℕ → NetworkTransport × Option ℕ → Type 0
Gets held (t, none) = Owned t held
Gets held (t, some i) = Owned t (i ∷ held)

-- After `SendMsg`, the goroutine lets the connection go where it failed.
abbrev pub Sends : List ℕ → ℕ → NetworkTransport × Bool → Type 0
Sends rest i (t, true) = Owned t (i ∷ rest)
Sends rest i (t, false) = Owned t rest

Sends-if :
    (b : Bool) (rest : List ℕ) (i : ℕ) (x y : NetworkTransport × Bool)
    → Sends rest i x
    → Sends rest i y
    → Sends rest i (if b then x else y)
Sends-if true rest i x y h k = h
Sends-if false rest i x y h k = k

-- An address that is not used yet stands nowhere.
fresh-Unowned : (t : NetworkTransport) (held : List ℕ) → Owned t held → Unowned t held t.next_conn
fresh-Unowned t held o = (
  ground (arith, o.one_owner t.next_conn),
  nowhere t held t.next_conn o (ground (arith, o.one_owner t.next_conn)),
)

dialed-Owned :
    (t : NetworkTransport) (held : List ℕ) (c : NetConn)
    → Owned t held
    → c.is_open ≡ true
    → Owned
        (record t { conns = set_conn t.next_conn c t.conns; next_conn = t.next_conn + 1 })
        (t.next_conn ∷ held)
dialed-Owned t held c o opened = record {
  one_owner = λ j. elim (ℕ_discrete n j) [
    | yes e ↦ ground (
      arith,
      e,
      unowned.0,
      unowned.1 (set_conn n c t.conns j).target,
      held_past j,
      waits_past j (set_conn n c t.conns j).target,
    )
    | no e ↦ ground (
      arith,
      o.one_owner j,
      e,
      ap (λ x. occurrences j (idle x.target t)) (set_conn-past n j c t.conns e),
    )
  ];
  waits_open = λ target j h. old_open j (waits_past j target h) (o.waits_open target j h);
  waits_at = λ target j h.
      ap (λ x. x.target) (set_conn-past n j c t.conns (waits_past j target h))
      ∙ o.waits_at target j h;
  held_open = λ j h. elim (ℕ_discrete n j) [
    | yes e ↦ ap (λ x. x.is_open) (set_conn-at n j c t.conns e) ∙ opened
    | no e ↦ old_open j e (o.held_open j (ground (arith, h, e)))
  ];
  bounded = o.bounded;
}
  where
    n : ℕ
    n = t.next_conn

    unowned : Unowned t held n
    unowned = fresh-Unowned t held o

    held_past : (j : ℕ) → 0 < occurrences j held → n ≢ j
    held_past j h e = omega (arith, h, unowned.0, ap (λ x. occurrences x held) e)

    waits_past : (j : ℕ) (target : GoString) → 0 < occurrences j (idle target t) → n ≢ j
    waits_past j target h e =
        omega (arith, h, unowned.1 target, ap (λ x. occurrences x (idle target t)) e)

    old_open :
        (j : ℕ) → n ≢ j → (t.conns j).is_open ≡ true → (set_conn n c t.conns j).is_open ≡ true
    old_open j e h = ap (λ x. x.is_open) (set_conn-past n j c t.conns e) ∙ h

pub get_conn-Owned :
    (dials : Bool) (target : GoString) (t : NetworkTransport) (held : List ℕ)
    → Owned t held
    → Gets held (get_conn dials target t)
unfolding get_conn dial_conn
get_conn-Owned dials target t held o = elim (Option-cases (split_last (idle target t))) [
  | inl fails ↦ rw (fails, get_conn) (dialing dials)
  | inr ((front, last), found) ↦
      rw (found, get_conn)
        (move-Owned t held (last ∷ held) target front o
          (λ j. omega (arith, (split_last-total (idle target t) front last j found).0))
          (λ j h.
            o.waits_at target j
              (omega (arith, h, (split_last-total (idle target t) front last j found).0)))
          (omega
            (arith, o.bounded target, (split_last-total (idle target t) front last 0 found).1)))
]
  where
    dialing : (b : Bool) → Gets held (dial_conn b target t)
    dialing true = dialed-Owned t held _ o refl
    dialing false = o

pub send_frame-Owned :
    (network : Sending) (i : ℕ) (frame held rest : List ℕ) (place : ℕ) (t : NetworkTransport)
    → Owned t held
    → pick place held ≡ some (i, rest)
    → Sends rest i (send_frame network i frame t)
unfolding send_frame release
send_frame-Owned all_sent i frame held rest place t o e =
    let (kept, unowned, opened, used) = pick-Owned t held place i rest o e in
    Sends-if (t.conns i).is_open rest i _ _
      (write-Owned t (i ∷ rest) i _
        (less-Owned t held (i ∷ rest) o
          (λ j. omega (arith, total-pick (λ n. bit (j == n)) place held i rest e)))
        refl (inl opened))
      (write-Owned t rest i _ kept refl (inr unowned))
send_frame-Owned (fails_at s k) i frame held rest place t o e =
    let (kept, unowned, opened, used) = pick-Owned t held place i rest o e in
    let after = record (t.conns i) { sent = (t.conns i).sent ++ take k frame } in
    Sends-if (t.conns i).is_open rest i _ _
      (write-Owned (record t { conns = set_conn i after t.conns }) rest i _
        (write-Owned t rest i after kept refl (inr unowned)) refl (inr unowned))
      (write-Owned t rest i _ kept refl (inr unowned))

pub return_conn-Owned :
    (i place : ℕ) (held rest : List ℕ) (t : NetworkTransport)
    → Owned t held
    → pick place held ≡ some (i, rest)
    → Owned (return_conn i t).0 rest
unfolding return_conn release
return_conn-Owned i place held rest t o e =
    let (kept, unowned, opened, used) = pick-Owned t held place i rest o e in
    elim (Bool-cases (not t.shutdown && lt_int (length (idle (t.conns i).target t)) t.max_pool)) [
      | inr full ↦ rw (full, return_conn) (write-Owned t rest i _ kept refl (inr unowned))
      | inl room ↦
          rw (room, return_conn)
            (move-Owned t held rest (t.conns i).target (idle (t.conns i).target t ++ i ∷ []) o
              (λ j. omega (
                arith,
                total-pick (λ n. bit (j == n)) place held i rest e,
                total-append (λ n. bit (j == n)) (idle (t.conns i).target t) (i ∷ []),
              ))
              (λ j h. here j h) (more t.shutdown t.max_pool room))
    ]
  where
    here :
        (j : ℕ)
        → 0 < occurrences j (idle (t.conns i).target t ++ i ∷ [])
        → (t.conns j).target ≡ (t.conns i).target
    here j h = elim (ℕ_discrete j i) [
      | yes same ↦ ap (λ x. (t.conns x).target) same
      | no other ↦ o.waits_at (t.conns i).target j (
          ground (
            arith,
            other,
            h,
            total-append (λ n. bit (j == n)) (idle (t.conns i).target t) (i ∷ []),
          ))
    ]

    more :
        (shut : Bool) (max : ℤ)
        → not shut && lt_int (length (idle (t.conns i).target t)) max ≡ true
        → length (idle (t.conns i).target t ++ i ∷ []) ≤ capacity max
    more true max room = cc
    more false (pos m) room =
        ground (arith, room, length-append (idle (t.conns i).target t) (i ∷ []))
    more false (negsuc m) room = cc
