-- ===== src/Transport/Sharing/Received.antt =====
-- What goroutines send on a connection of the pool, the other side receives.
use simple_ft.Base.{
  ltb→lt, ℕ, ◌<◌, ◌≡◌, ◌≢◌, refl, sym, ap, subst, ◌∙◌, inl, inr, ℤ, Bool, true, false, ◌&&◌,
  if◌then◌else◌, Option-cases, ◌==◌, ltb, ℕ_discrete, List, [], ◌∷◌, ◌++◌, append-nil, append_assoc,
  take, Option, none, some, length, All, pick, arith,
}
use simple_ft.Transport.Wire.{Codec, MsgWithSig, frame, handle_conn, stuck}
use simple_ft.Transport.Wire.Delivered.{ReadsBack, handle_conn-tail}
use simple_ft.Transport.{
  NetworkTransport, NetConn, new_network_transport, set_conn, get_conn, release, send_frame, close,
  Sending, all_sent, fails_at,
}
use simple_ft.Transport.Sharing.{
  Users, Event, take_conn, send, give_back, shut_down, step, run, start,
}
use simple_ft.Transport.Sharing.Owned.{Owned, pick-Owned, set_conn-at, set_conn-past}
use simple_ft.Transport.Sharing.Runs.{step-Owned, start-Owned}
use simple_ft.Transport.Sharing.Carried.{
  Carried, Logged, empty-Carried, sent-Carried, cut-Carried, get_conn-Logged, return_conn-Logged,
}

module _ (c : Codec) where
  -- The message that the event sends on the connection, where `SendMsg` gives no error.
  unfoldable pub sent_at : Users → Event → ℕ → List MsgWithSig
  sent_at u (send place network m) i = elim (pick place u.held) [
    | none ↦ []
    | some (j, rest) ↦
        if j == i && (send_frame network j (frame c m) u.transport).1 then m ∷ [] else []
  ]
  sent_at u (take_conn dials target) i = []
  sent_at u (give_back place) i = []
  sent_at u shut_down i = []

  -- The messages that the events send on the connection without an error, in their order.
  unfoldable pub sent_on : Users → List Event → ℕ → List MsgWithSig
  unfolding sent_at
  sent_on u [] i = []
  sent_on u (e ∷ es) i = sent_at u e i ++ sent_on (step c u e) es i

  -- What is sent is read back, and where the network fails, some of the frame has not gone out.
  abbrev pub Fits : Event → Type 0
  Fits (send place all_sent m) = ReadsBack c m
  Fits (send place (fails_at s k) m) = ReadsBack c m × (k < length (frame c m))
  Fits (take_conn dials target) = Unit
  Fits (give_back place) = Unit
  Fits shut_down = Unit

  -- What `sent_at` says where `SendMsg` ended so.
  abbrev told : Bool → MsgWithSig → List MsgWithSig
  told ok m = if ok then m ∷ [] else []

  if-true : {A : Type 0} (b : Bool) (x y : A) → b ≡ true → (if b then x else y) ≡ x
  if-true b x y e = ap (λ z. if z then x else y) e

  told-none : (b : Bool) (m : MsgWithSig) (ms : List MsgWithSig) → ms ++ told (b && false) m ≡ ms
  told-none true m ms = append-nil ms
  told-none false m ms = append-nil ms

  module _ (t : NetworkTransport) (i j : ℕ) (m : MsgWithSig) (ms : List MsgWithSig) where
    abbrev longer : List ℕ → NetConn
    longer bytes = record (t.conns i) { sent = (t.conns i).sent ++ bytes }

    whole-Logged :
        (t.conns i).is_open ≡ true
        → ltb i t.next_conn ≡ true
        → ReadsBack c m
        → Logged c t j ms
        → Logged c
            (record t { conns = set_conn i (longer (frame c m)) t.conns })
            j
            (ms ++ told (i == j && true) m)
    whole-Logged opened used reads d = elim (ℕ_discrete i j) [
      | yes e ↦
          subst (λ b. Written (ms ++ told (b && true) m)) (sym (same e))
            (
              subst (λ x. Carried c x (ms ++ m ∷ []))
                  (sym (set_conn-at i j (longer (frame c m)) t.conns e))
                  (sent-Carried c (t.conns i) ms m opened reads
                    (subst (λ x. Carried c (t.conns x) ms) (sym e) d.0)),
              λ h. absurd (omega (arith, h, e, ltb→lt i t.next_conn used)),
            )
      | no e ↦
          subst (λ b. Written (ms ++ told (b && true) m)) (sym (other e))
            (
              subst (λ x. Carried c x (ms ++ []))
                  (sym (set_conn-past i j (longer (frame c m)) t.conns e))
                  (subst (Carried c (t.conns j)) (sym (append-nil ms)) d.0),
              λ h. append-nil ms ∙ d.1 h,
            )
    ]
      where
        Written : List MsgWithSig → Type 0
        Written ns = Logged c (record t { conns = set_conn i (longer (frame c m)) t.conns }) j ns

        same : i ≡ j → i == j ≡ true
        same e = ground arith

        other : i ≢ j → i == j ≡ false
        other e = ground arith

    part-Logged :
        (k : ℕ)
        → (t.conns i).is_open ≡ true
        → ReadsBack c m
        → k < length (frame c m)
        → Logged c t j ms
        → Logged c
            (release i (record t { conns = set_conn i (longer (take k (frame c m))) t.conns })).0
            j
            ms
    unfolding release
    part-Logged k opened reads l d = (
      elim (ℕ_discrete i j) [
        | yes e ↦
            subst (λ x. Carried c x ms)
              (sym (
                set_conn-at i j (shut (after i)) after e
                ∙ ap shut (set_conn-at i i part t.conns refl)))
              (cut-Carried c (t.conns i) ms m k opened reads l
                (subst (λ x. Carried c (t.conns x) ms) (sym e) d.0))
        | no e ↦
            subst (λ x. Carried c x ms)
              (sym (set_conn-past i j (shut (after i)) after e ∙ set_conn-past i j part t.conns e))
              d.0
      ],
      d.1,
    )
      where
        part : NetConn
        part = longer (take k (frame c m))

        after : ℕ → NetConn
        after = set_conn i part t.conns

        shut : NetConn → NetConn
        shut n = record n { is_open = false }

  send_frame-Logged :
      (network : Sending) (place i j : ℕ) (m : MsgWithSig) (t : NetworkTransport)
      (ms : List MsgWithSig)
      → Fits (send place network m)
      → (t.conns i).is_open ≡ true
      → ltb i t.next_conn ≡ true
      → Logged c t j ms
      → Logged c
          (send_frame network i (frame c m) t).0
          j
          (ms ++ told (i == j && (send_frame network i (frame c m) t).1) m)
  unfolding send_frame
  send_frame-Logged all_sent place i j m t ms fits opened used d =
      subst (λ (out : NetworkTransport × Bool). Logged c out.0 j (ms ++ told (i == j && out.1) m))
        (sym (if-true (t.conns i).is_open _ _ opened)) (whole-Logged t i j m ms opened used fits d)
  send_frame-Logged (fails_at s k) place i j m t ms fits opened used d =
      let after = longer t i j m ms (take k (frame c m)) in
      subst (λ (out : NetworkTransport × Bool). Logged c out.0 j (ms ++ told (i == j && out.1) m))
        (sym (if-true (t.conns i).is_open _ _ opened))
        (subst (Logged c (release i (record t { conns = set_conn i after t.conns })).0 j)
          (sym (told-none (i == j) m ms)) (part-Logged t i j m ms k opened fits.0 fits.1 d))

  step-Logged :
      (u : Users) (e : Event) (j : ℕ) (ms : List MsgWithSig)
      → Fits e
      → Owned u.transport u.held
      → Logged c u.transport j ms
      → Logged c (step c u e).transport j (ms ++ sent_at u e j)
  unfolding step sent_at close
  step-Logged u (take_conn dials target) j ms fits o d =
      taken (get_conn dials target u.transport) (get_conn-Logged c dials target u.transport j ms d)
    where
      taken :
          (got : NetworkTransport × Option ℕ)
          → Logged c got.0 j ms
          → let next : Users = elim got.1 [
            | none ↦ record { transport = got.0; held = u.held }
            | some i ↦ record { transport = got.0; held = i ∷ u.held }
          ] in
            Logged c next.transport j (ms ++ [])
      taken (t, none) h = rw (append-nil ms) h
      taken (t, some i) h = rw (append-nil ms) h
  step-Logged u (send place network m) j ms fits o d = elim (Option-cases (pick place u.held)) [
    | inl missing ↦ rw (missing, step, sent_at, append-nil ms) d
    | inr ((i, rest), found) ↦
        let (kept, unowned, opened, used) = pick-Owned u.transport u.held place i rest o found in
        rw (found, step, sent_at)
          (send_frame-Logged network place i j m u.transport ms fits opened used d)
  ]
  step-Logged u (give_back place) j ms fits o d = elim (Option-cases (pick place u.held)) [
    | inl missing ↦ rw (missing, step, sent_at, append-nil ms) d
    | inr ((i, rest), found) ↦
        rw (found, step, append-nil ms) (return_conn-Logged c i j u.transport ms d)
  ]
  step-Logged u shut_down j ms fits o d = rw (append-nil ms) d

  run-Logged :
      (u : Users) (es : List Event) (j : ℕ) (ms : List MsgWithSig)
      → All Fits es
      → Owned u.transport u.held
      → Logged c u.transport j ms
      → Logged c (run c u es).transport j (ms ++ sent_on u es j)
  unfolding run sent_on
  run-Logged u [] j ms fits o d = rw (append-nil ms) d
  run-Logged u (e ∷ es) j ms fits o d =
      rw⁻¹ (append_assoc ms (sent_at u e j) (sent_on (step c u e) es j)) (
        run-Logged (step c u e) es j (ms ++ sent_at u e j) fits.1 (step-Owned c u e o)
          (step-Logged u e j ms fits.0 o d))

  -- In every run of the goroutines that share the pool, and for each connection: `handleConn` of the
  -- other side, on the bytes that have gone out, gives to its channel the messages that were sent on
  -- the connection without an error, and no other, in their order, and does not get stuck. This holds
  -- if the codec reads back what is sent, a send that fails leaves some bytes of its frame behind,
  -- the channel takes every message, and the fuel is more than the bytes.
  pub handle_conn-sent_on :
      (max_pool : ℤ) (es : List Event) (i fuel : ℕ) (takes : ℕ → Bool)
      → All Fits es
      → ((j : ℕ) → takes j ≡ true)
      → length ((run c (start max_pool) es).transport.conns i).sent < fuel
      → ((handle_conn c fuel takes 0 ((run c (start max_pool) es).transport.conns i).sent).0
          ≡ sent_on (start max_pool) es i)
        × ((handle_conn c fuel takes 0 ((run c (start max_pool) es).transport.conns i).sent).1
            ≢ stuck)
  unfolding new_network_transport
  handle_conn-sent_on max_pool es i fuel takes fits all l =
      let d =
        run-Logged (start max_pool) es i [] fits (start-Owned max_pool)
          (empty-Carried c _ refl, λ h. refl) in
      let (same, ends) =
        handle_conn-tail c (sent_on (start max_pool) es i) d.0.tail fuel 0 takes d.0.readable
          d.0.ends all (omega (arith, l, ap length d.0.wrote)) in
      rw (d.0.wrote) (same, ends)
