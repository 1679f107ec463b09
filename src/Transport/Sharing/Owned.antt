-- ===== src/Transport/Sharing/Owned.antt =====
-- No connection has two owners.
use simple_ft.Base.{
  ◌∙◌, ◌⊎◌, ◌≢◌, dec_lt, ℕ, suc, ◌+◌, ◌≤◌, ◌<◌, ◌≡◌, refl, ap, sym, inl, inr, ℤ, pos, negsuc,
  GoString, true, Option-cases, List, [], ◌∷◌, none, some, length, ltb, ◌==◌, get-put, put, key,
  string_key, arith, pick, total-pick, occurrences, bit, if_pos, if_neg, ℕ_discrete,
}
use simple_ft.Transport.{NetworkTransport, NetConn, idle, ids_of, set_conn, split_last}

-- The most connections that wait at one target.
abbrev pub capacity : ℤ → ℕ
capacity (pos m) = m
capacity (negsuc m) = 0

-- A connection that was made stands at most once in the pool and with the goroutines together, and
-- no other address does; what waits in the pool is open, waits at the target that it was dialed
-- for, and no target has more than the bound; and what a goroutine holds is open.
pub record Owned (t : NetworkTransport) (held : List ℕ) : Type 0 where
  pub one_owner :
      (i : ℕ)
      → occurrences i held + occurrences i (idle (t.conns i).target t) ≤ bit (ltb i t.next_conn)
  pub waits_open :
      (target : GoString) (i : ℕ) → 0 < occurrences i (idle target t) → (t.conns i).is_open ≡ true
  pub waits_at :
      (target : GoString) (i : ℕ) → 0 < occurrences i (idle target t) → (t.conns i).target ≡ target
  pub held_open : (i : ℕ) → 0 < occurrences i held → (t.conns i).is_open ≡ true
  pub bounded : (target : GoString) → length (idle target t) ≤ capacity t.max_pool

pub split_last-empty : (js : List ℕ) → split_last js ≡ none → js ≡ []
unfolding split_last
split_last-empty [] h = refl
split_last-empty (k ∷ js) h = elim (Option-cases (split_last js)) [
  | inl fails ↦ absurd (ground arith)
  | inr (got, found) ↦ absurd (ground arith)
]

pub split_last-total :
    (ids front : List ℕ) (j i : ℕ)
    → split_last ids ≡ some (front, j)
    → (occurrences i ids ≡ occurrences i front + bit (i == j)) × (length ids ≡ suc (length front))
unfolding split_last
split_last-total [] front j i e = cc
split_last-total (n ∷ ids) front j i e = elim (Option-cases (split_last ids)) [
  | inl fails ↦ ground (arith, split_last-empty ids fails)
  | inr ((more, last), found) ↦ ground (arith, split_last-total ids more last i found)
]

module _ (a b : GoString) (ids : List ℕ) (t : NetworkTransport) where
  pub idle-put_self : a ≡ b → idle b (record t { conn_pool = put a ids t.conn_pool }) ≡ ids
  idle-put_self e = ap ids_of (get-put a b ids t.conn_pool ∙ if_pos (key a b) e _ _)

  pub idle-put_ne : a ≢ b → idle b (record t { conn_pool = put a ids t.conn_pool }) ≡ idle b t
  idle-put_ne e = ap ids_of (get-put a b ids t.conn_pool ∙ if_neg (key a b) e _ _)

-- The address stands nowhere.
abbrev pub Unowned : NetworkTransport → List ℕ → ℕ → Type 0
Unowned t held i =
    (occurrences i held ≡ 0) × ((target : GoString) → occurrences i (idle target t) ≡ 0)

-- An address that does not wait at the target of its connection waits at none.
pub nowhere :
    (t : NetworkTransport) (held : List ℕ) (i : ℕ)
    → Owned t held
    → occurrences i (idle (t.conns i).target t) ≡ 0
    → (target : GoString) → occurrences i (idle target t) ≡ 0
nowhere t held i o none_there target = elim (dec_lt 0 (occurrences i (idle target t))) [
  | yes some_here ↦
      ap (λ x. occurrences i (idle x t)) (sym (o.waits_at target i some_here)) ∙ none_there
  | no none_here ↦ omega (arith, none_here)
]

pub less-Owned :
    (t : NetworkTransport) (held rest : List ℕ)
    → Owned t held
    → ((j : ℕ) → occurrences j rest ≤ occurrences j held)
    → Owned t rest
less-Owned t held rest o less = record {
  one_owner = λ j. omega (arith, o.one_owner j, less j);
  waits_open = o.waits_open;
  waits_at = o.waits_at;
  held_open = λ j h. o.held_open j (omega (arith, h, less j));
  bounded = o.bounded;
}

-- The address that a goroutine lets go of stands nowhere.
pub pick-Owned :
    (t : NetworkTransport) (held : List ℕ) (place i : ℕ) (rest : List ℕ)
    → Owned t held
    → pick place held ≡ some (i, rest)
    → Owned t rest × Unowned t rest i × ((t.conns i).is_open ≡ true) × (ltb i t.next_conn ≡ true)
pick-Owned t held place i rest o e = (
  less-Owned t held rest o (λ j. omega (arith, counted j)),
  (
    ground (arith, counted i, o.one_owner i),
    nowhere t held i o (ground (arith, counted i, o.one_owner i)),
  ),
  o.held_open i (ground (arith, counted i)),
  ground (arith, counted i, o.one_owner i),
)
  where
    counted : (j : ℕ) → occurrences j held ≡ bit (j == i) + occurrences j rest
    counted j = total-pick (λ n. bit (j == n)) place held i rest e

pub set_conn-at : (i j : ℕ) (c : NetConn) (conns : ℕ → NetConn) → i ≡ j → set_conn i c conns j ≡ c
set_conn-at i j c conns e = if_pos (ℕ_discrete i j) e _ _

pub set_conn-past :
    (i j : ℕ) (c : NetConn) (conns : ℕ → NetConn) → i ≢ j → set_conn i c conns j ≡ conns j
set_conn-past i j c conns e = if_neg (ℕ_discrete i j) e _ _

pub set_conn-target :
    (i j : ℕ) (c : NetConn) (conns : ℕ → NetConn)
    → c.target ≡ (conns i).target
    → (set_conn i c conns j).target ≡ (conns j).target
set_conn-target i j c conns same = elim (ℕ_discrete i j) [
  | yes e ↦ ap (λ x. x.target) (set_conn-at i j c conns e) ∙ same ∙ ap (λ x. (conns x).target) e
  | no e ↦ ap (λ x. x.target) (set_conn-past i j c conns e)
]

pub set_conn-open :
    (i j : ℕ) (c : NetConn) (conns : ℕ → NetConn)
    → (conns j).is_open ≡ true
    → (i ≡ j → c.is_open ≡ true)
    → (set_conn i c conns j).is_open ≡ true
set_conn-open i j c conns h opened = elim (ℕ_discrete i j) [
  | yes e ↦ ap (λ x. x.is_open) (set_conn-at i j c conns e) ∙ opened e
  | no e ↦ ap (λ x. x.is_open) (set_conn-past i j c conns e) ∙ h
]

-- A write that keeps the target, and closes no connection that is in use.
pub write-Owned :
    (t : NetworkTransport) (held : List ℕ) (i : ℕ) (c : NetConn)
    → Owned t held
    → c.target ≡ (t.conns i).target
    → (c.is_open ≡ true) ⊎ Unowned t held i
    → Owned (record t { conns = set_conn i c t.conns }) held
write-Owned t held i c o same free = record {
  one_owner = λ j. rw (set_conn-target i j c t.conns same) (o.one_owner j);
  waits_open = λ target j h. set_conn-open i j c t.conns (o.waits_open target j h) (λ e. elim free [
    | inl opened ↦ opened
    | inr unowned ↦
        absurd (omega (arith, h, unowned.1 target, ap (λ x. occurrences x (idle target t)) e))
  ]);
  waits_at = λ target j h. set_conn-target i j c t.conns same ∙ o.waits_at target j h;
  held_open = λ j h. set_conn-open i j c t.conns (o.held_open j h) (λ e. elim free [
    | inl opened ↦ opened
    | inr unowned ↦ absurd (omega (arith, h, unowned.0, ap (λ x. occurrences x held) e))
  ]);
  bounded = o.bounded;
}

-- Connections move between the goroutines and the pool at one target.
pub move-Owned :
    (t : NetworkTransport) (held later : List ℕ) (target : GoString) (ids : List ℕ)
    → Owned t held
    → ((j : ℕ)
        → occurrences j later + occurrences j ids
          ≡ occurrences j held + occurrences j (idle target t))
    → ((j : ℕ) → 0 < occurrences j ids → (t.conns j).target ≡ target)
    → length ids ≤ capacity t.max_pool
    → Owned (record t { conn_pool = put target ids t.conn_pool }) later
move-Owned t held later target ids o same there few = record {
  one_owner = λ j. elim (key target (t.conns j).target) [
    | yes e ↦ omega (
      arith,
      o.one_owner j,
      same j,
      ap (λ x. occurrences j (idle x t)) e,
      ap (occurrences j) (idle-put_self target (t.conns j).target ids t e),
    )
    | no e ↦ omega (
      arith,
      o.one_owner j,
      same j,
      not_here j e,
      ap (occurrences j) (idle-put_ne target (t.conns j).target ids t e),
    )
  ];
  waits_open = λ k j h. elim (key target k) [
    | yes e ↦
        is_used j (omega (arith, h, same j, ap (occurrences j) (idle-put_self target k ids t e)))
    | no e ↦ o.waits_open k j (omega (arith, h, ap (occurrences j) (idle-put_ne target k ids t e)))
  ];
  waits_at = λ k j h. elim (key target k) [
    | yes e ↦ there j (omega (arith, h, ap (occurrences j) (idle-put_self target k ids t e))) ∙ e
    | no e ↦ o.waits_at k j (omega (arith, h, ap (occurrences j) (idle-put_ne target k ids t e)))
  ];
  held_open = λ j h. is_used j (omega (arith, h, same j));
  bounded = λ k. elim (key target k) [
    | yes e ↦ omega (arith, few, ap length (idle-put_self target k ids t e))
    | no e ↦ omega (arith, o.bounded k, ap length (idle-put_ne target k ids t e))
  ];
}
  where
    not_here : (j : ℕ) → target ≢ (t.conns j).target → occurrences j (idle target t) ≡ 0
    not_here j other = elim (dec_lt 0 (occurrences j (idle target t))) [
      | yes here ↦ absurd (other (sym (o.waits_at target j here)))
      | no none_here ↦ omega (arith, none_here)
    ]

    is_used :
        (j : ℕ)
        → 0 < occurrences j held + occurrences j (idle target t)
        → (t.conns j).is_open ≡ true
    is_used j h = elim (dec_lt 0 (occurrences j held)) [
      | yes in_hand ↦ o.held_open j in_hand
      | no free ↦ o.waits_open target j (omega (arith, h, free))
    ]
