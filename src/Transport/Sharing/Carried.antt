-- ===== src/Transport/Sharing/Carried.antt =====
-- What the frames on a connection of the pool hold.
use simple_ft.Base.{
  ℕ, ◌≤◌, ◌<◌, ◌≡◌, refl, sym, ap, subst, ◌∙◌, ◌⊎◌, inl, inr, GoString, Bool, true, false, not,
  ◌&&◌, Bool-cases, Option-cases, lt_int, ℕ_discrete, List, [], ◌∷◌, ◌++◌, append-nil, append_assoc,
  take, length, All, All-append, arith,
}
use simple_ft.Transport.Wire.{Codec, MsgWithSig, frame, handle_msg, at_end, refused}
use simple_ft.Transport.Wire.Delivered.{ReadsBack, frames, handle_msg-cut}
use simple_ft.Transport.{
  NetworkTransport, NetConn, idle, set_conn, split_last, dial_conn, get_conn, release, return_conn,
}
use simple_ft.Transport.Sharing.Owned.{set_conn-at, set_conn-past}

module _ (c : Codec) where
  -- The frames of the messages have gone out, and behind them nothing on an open connection, and on
  -- a closed one at most a part of a frame.
  pub record Carried (n : NetConn) (ms : List MsgWithSig) : Type 0 where
    pub readable : All (ReadsBack c) ms
    pub tail : List ℕ
    pub wrote : n.sent ≡ frames c ms ++ tail
    pub ends : (handle_msg c tail ≡ at_end) ⊎ (handle_msg c tail ≡ refused)
    pub whole : n.is_open ≡ true → tail ≡ []

  pub empty-Carried : (n : NetConn) → n.sent ≡ [] → Carried n []
  unfolding handle_msg
  empty-Carried n e = record {
    readable = tt;
    tail = [];
    wrote = e;
    ends = inl refl;
    whole = λ h. refl;
  }

  pub closed-Carried :
      (n : NetConn) (ms : List MsgWithSig)
      → Carried n ms
      → Carried (record n { is_open = false }) ms
  closed-Carried n ms d = record {
    readable = d.readable;
    tail = d.tail;
    wrote = d.wrote;
    ends = d.ends;
    whole = λ h. cc;
  }

  frames-append :
      (ms : List MsgWithSig) (m : MsgWithSig) → frames c (ms ++ m ∷ []) ≡ frames c ms ++ frame c m
  frames-append [] m = append-nil (frame c m)
  frames-append (n ∷ ms) m =
      ap (λ x. frame c n ++ x) (frames-append ms m)
      ∙ sym (append_assoc (frame c n) (frames c ms) (frame c m))

  open-wrote :
      (n : NetConn) (ms : List MsgWithSig) → n.is_open ≡ true → Carried n ms → n.sent ≡ frames c ms
  open-wrote n ms opened d =
      d.wrote ∙ ap (λ x. frames c ms ++ x) (d.whole opened) ∙ append-nil (frames c ms)

  -- A whole frame more.
  pub sent-Carried :
      (n : NetConn) (ms : List MsgWithSig) (m : MsgWithSig)
      → n.is_open ≡ true
      → ReadsBack c m
      → Carried n ms
      → Carried (record n { sent = n.sent ++ frame c m }) (ms ++ m ∷ [])
  unfolding handle_msg
  sent-Carried n ms m opened reads d = record {
    readable = All-append (ReadsBack c) ms (m ∷ []) d.readable (reads, tt);
    tail = [];
    wrote =
        ap (λ x. x ++ frame c m) (open-wrote n ms opened d)
        ∙ sym (append-nil (frames c (ms ++ m ∷ [])) ∙ frames-append ms m);
    ends = inl refl;
    whole = λ h. refl;
  }

  -- A part of a frame more, and the end.
  pub cut-Carried :
      (n : NetConn) (ms : List MsgWithSig) (m : MsgWithSig) (k : ℕ)
      → n.is_open ≡ true
      → ReadsBack c m
      → k < length (frame c m)
      → Carried n ms
      → Carried (record n { is_open = false; sent = n.sent ++ take k (frame c m) }) ms
  cut-Carried n ms m k opened reads l d = record {
    readable = d.readable;
    tail = take k (frame c m);
    wrote = ap (λ x. x ++ take k (frame c m)) (open-wrote n ms opened d);
    ends = handle_msg-cut c m k reads l;
    whole = λ h. cc;
  }

  -- A write at an address keeps what holds of every connection, if it keeps that of its own.
  pub set_conn-Carried :
      (i j : ℕ) (n : NetConn) (conns : ℕ → NetConn) (ms : List MsgWithSig)
      → (i ≡ j → Carried n ms)
      → Carried (conns j) ms
      → Carried (set_conn i n conns j) ms
  set_conn-Carried i j n conns ms new old = elim (ℕ_discrete i j) [
    | yes e ↦ subst (λ x. Carried x ms) (sym (set_conn-at i j n conns e)) (new e)
    | no e ↦ subst (λ x. Carried x ms) (sym (set_conn-past i j n conns e)) old
  ]

  -- The messages of the connection at an address; there are none at an address that is not used yet.
  abbrev pub Logged : NetworkTransport → ℕ → List MsgWithSig → Type 0
  Logged t j ms = Carried (t.conns j) ms × (t.next_conn ≤ j → ms ≡ [])

  pub get_conn-Logged :
      (dials : Bool) (target : GoString) (t : NetworkTransport) (j : ℕ) (ms : List MsgWithSig)
      → Logged t j ms
      → Logged (get_conn dials target t).0 j ms
  unfolding get_conn dial_conn
  get_conn-Logged dials target t j ms d = elim (Option-cases (split_last (idle target t))) [
    | inl fails ↦ rw (fails, get_conn) (dialing dials)
    | inr ((front, last), found) ↦ rw (found, get_conn) d
  ]
    where
      dialing : (b : Bool) → Logged (dial_conn b target t).0 j ms
      dialing true = (
        set_conn-Carried t.next_conn j _ t.conns ms
            (λ e. subst (Carried _) (sym (d.1 (omega (arith, e)))) (empty-Carried _ refl)) d.0,
        λ h. d.1 (omega (arith, h)),
      )
      dialing false = d

  release-Logged :
      (i j : ℕ) (t : NetworkTransport) (ms : List MsgWithSig)
      → Logged t j ms
      → Logged (release i t).0 j ms
  unfolding release
  release-Logged i j t ms d = (
    set_conn-Carried i j _ t.conns ms
        (λ e. closed-Carried (t.conns i) ms (subst (λ x. Carried (t.conns x) ms) (sym e) d.0)) d.0,
    d.1,
  )

  pub return_conn-Logged :
      (i j : ℕ) (t : NetworkTransport) (ms : List MsgWithSig)
      → Logged t j ms
      → Logged (return_conn i t).0 j ms
  unfolding return_conn
  return_conn-Logged i j t ms d =
      elim (Bool-cases (not t.shutdown && lt_int (length (idle (t.conns i).target t)) t.max_pool)) [
        | inr full ↦ rw (full, return_conn) (release-Logged i j t ms d)
        | inl room ↦ rw (room, return_conn) d
      ]
