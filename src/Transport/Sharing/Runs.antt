-- ===== src/Transport/Sharing/Runs.antt =====
-- Every run of the goroutines that share the pool keeps one owner for each connection.
use simple_ft.Base.{
  get, ◌∙◌, if◌then◌else◌, ℕ, ◌≡◌, refl, inl, inr, ℤ, Bool, true, false, Option-cases, List, [],
  ◌∷◌, Option, none, some, string_key, arith, pick,
}
use simple_ft.Transport.{
  NetworkTransport, new_network_transport, dial_conn, get_conn, release, return_conn, send_frame,
  close, all_sent, fails_at,
}
use simple_ft.Transport.Wire.{Codec, frame}
use simple_ft.Transport.Sharing.{
  Users, Event, take_conn, send, give_back, shut_down, step, run, start,
}
use simple_ft.Transport.Sharing.Owned.{Owned}
use simple_ft.Transport.Sharing.Steps.{
  Gets, Sends, get_conn-Owned, send_frame-Owned, return_conn-Owned,
}

close-Owned : (t : NetworkTransport) (held : List ℕ) → Owned t held → Owned (close t) held
unfolding close
close-Owned t held o = record {
  one_owner = o.one_owner;
  waits_open = o.waits_open;
  waits_at = o.waits_at;
  held_open = o.held_open;
  bounded = o.bounded;
}

pub step-Owned :
    (c : Codec) (u : Users) (e : Event)
    → Owned u.transport u.held
    → Owned (step c u e).transport (step c u e).held
unfolding step
step-Owned c u (take_conn dials target) o =
    taken (get_conn dials target u.transport) (get_conn-Owned dials target u.transport u.held o)
  where
    taken :
        (got : NetworkTransport × Option ℕ)
        → Gets u.held got
        → let next : Users = elim got.1 [
          | none ↦ record { transport = got.0; held = u.held }
          | some i ↦ record { transport = got.0; held = i ∷ u.held }
        ] in
          Owned next.transport next.held
    taken (t, none) h = h
    taken (t, some i) h = h
step-Owned c u (send place network m) o = elim (Option-cases (pick place u.held)) [
  | inl missing ↦ rw (missing, step) o
  | inr ((i, rest), found) ↦
      rw (found, step)
        (sent rest i (send_frame network i (frame c m) u.transport)
          (send_frame-Owned network i (frame c m) u.held rest place u.transport o found))
]
  where
    sent :
        (rest : List ℕ) (i : ℕ) (out : NetworkTransport × Bool)
        → Sends rest i out
        → Owned out.0 (if out.1 then i ∷ rest else rest)
    sent rest i (t, true) h = h
    sent rest i (t, false) h = h
step-Owned c u (give_back place) o = elim (Option-cases (pick place u.held)) [
  | inl missing ↦ rw (missing, step) o
  | inr ((i, rest), found) ↦
      rw (found, step) (return_conn-Owned i place u.held rest u.transport o found)
]
step-Owned c u shut_down o = close-Owned u.transport u.held o

pub run-Owned :
    (c : Codec) (u : Users) (es : List Event)
    → Owned u.transport u.held
    → Owned (run c u es).transport (run c u es).held
unfolding run
run-Owned c u [] o = o
run-Owned c u (e ∷ es) o = run-Owned c (step c u e) es (step-Owned c u e o)

pub start-Owned : (max_pool : ℤ) → Owned (start max_pool).transport []
unfolding new_network_transport get
start-Owned max_pool = record {
  one_owner = λ j. omega arith;
  waits_open = λ target j h. absurd (omega arith);
  waits_at = λ target j h. absurd (omega arith);
  held_open = λ j h. absurd (omega arith);
  bounded = λ target. omega arith;
}

step-max_pool :
    (c : Codec) (u : Users) (e : Event) → (step c u e).transport.max_pool ≡ u.transport.max_pool
unfolding step get_conn dial_conn send_frame return_conn release close
step-max_pool c u (take_conn dials target) = ground arith
step-max_pool c u (send place all_sent m) = ground arith
step-max_pool c u (send place (fails_at s k) m) = ground arith
step-max_pool c u (give_back place) = ground arith
step-max_pool c u shut_down = refl

run-max_pool :
    (c : Codec) (u : Users) (es : List Event)
    → (run c u es).transport.max_pool ≡ u.transport.max_pool
unfolding run
run-max_pool c u [] = refl
run-max_pool c u (e ∷ es) = run-max_pool c (step c u e) es ∙ step-max_pool c u e

-- However the goroutines take connections, send, fail, give back and close the transport, in any
-- order: a connection that was made stands at most once in the pool and with the goroutines
-- together; one that waits in the pool is open and waits at the target that it was dialed for; one
-- that a goroutine holds is open; and no target has more waiting than the bound of the transport.
pub run-start-Owned :
    (c : Codec) (max_pool : ℤ) (es : List Event)
    → Owned (run c (start max_pool) es).transport (run c (start max_pool) es).held
      × ((run c (start max_pool) es).transport.max_pool ≡ max_pool)
unfolding new_network_transport
run-start-Owned c max_pool es =
    (run-Owned c (start max_pool) es (start-Owned max_pool), run-max_pool c (start max_pool) es)
