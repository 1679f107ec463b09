-- ===== src/Transport/Listening/Delays.antt =====
-- When listening ends, and how long it waits.
use simple_ft.Base.{
  ℕ, ◌≤◌, ◌≡◌, refl, ap, ◌∙◌, sym, Bool, true, false, Bool-cases, ◌⊎◌, inl, inr, List, [], ◌∷◌,
  ◌++◌, map, append_assoc, append-nil, arith, if◌then◌else◌, All, All-append,
}
use simple_ft.Transport.Listening.{
  base_delay, max_delay, Listener, start, Event, accepts, fails, closes, next_delay, fail, step,
  run,
}

-- An event at a loop that has ended.
step-ended :
    (l : Listener) (e : Event)
    → l.listening ≡ false
    → ((step l e).listening ≡ false) × ((step l e).handled ≡ l.handled)
unfolding step
step-ended l closes h = (h, refl)
step-ended l (accepts c) h = ground (arith, h)
step-ended l (fails timer) h = ground (arith, h)

-- A loop that has ended handles no connection.
run-ended :
    (l : Listener) (es : List Event)
    → l.listening ≡ false
    → ((run l es).listening ≡ false) × ((run l es).handled ≡ l.handled)
unfolding run
run-ended l [] h = (h, refl)
run-ended l (e ∷ es) h =
    let (still, same) = step-ended l e h in
    let (end, kept) = run-ended (step l e) es still in (end, kept ∙ same)

step-accepts :
    (l : Listener) (c : ℕ)
    → l.listening ≡ true
    → ((step l (accepts c)).listening ≡ true)
      × ((step l (accepts c)).shutdown ≡ l.shutdown)
      × ((step l (accepts c)).handled ≡ l.handled ++ c ∷ [])
unfolding step
step-accepts l c h = ground (arith, h)

fails-ends :
    (l : Listener) (timer : Bool)
    → l.listening ≡ true
    → l.shutdown ≡ false
    → ((step l (fails timer)).listening ≡ false) × ((step l (fails timer)).handled ≡ l.handled)
unfolding step fail
fails-ends l timer h shut = ground (arith, h, shut)

-- Connections that are accepted are handled, in their order, and the delay is reset.
run-accepted :
    (cs : List ℕ) (l : Listener) (es : List Event)
    → l.listening ≡ true
    → (m : Listener) × (run l (map accepts cs ++ es) ≡ run m es)
      × (m.listening ≡ true)
      × (m.shutdown ≡ l.shutdown)
      × (m.handled ≡ l.handled ++ cs)
unfolding run
run-accepted [] l es h = (l, refl, h, refl, sym (append-nil l.handled))
run-accepted (c ∷ cs) l es h =
    let (on, as_before, added) = step-accepts l c h in
    let (m, e, goes, shut, same) = run-accepted cs (step l (accepts c)) es on in
    (
      m,
      e,
      goes,
      shut ∙ as_before,
      same ∙ ap (λ front. front ++ cs) added ∙ append_assoc l.handled (c ∷ []) cs,
    )

-- If `Accept` fails while the transport is not closed, listening ends for good: the connections
-- that are handled are those accepted before, whatever happens later.
pub listen-first_failure :
    (cs : List ℕ) (timer : Bool) (later : List Event)
    → let l = run start (map accepts cs ++ fails timer ∷ later) in
      (l.listening ≡ false) × (l.handled ≡ cs)
unfolding run
listen-first_failure cs timer later =
    let (m, e, goes, shut, same) = run-accepted cs start (fails timer ∷ later) refl in
    let (ends, kept) = fails-ends m timer goes shut in
    let (end, all) = run-ended (step m (fails timer)) later ends in rw e (end, all ∙ kept ∙ same)

-- A delay that is waited is between the least and the largest.
abbrev pub InBounds : ℕ → Type 0
InBounds d = (base_delay ≤ d) × (d ≤ max_delay)

-- What holds of a listener at any time.
abbrev pub Patient : Listener → Type 0
Patient l =
    ((l.loop_delay ≡ 0) ⊎ InBounds l.loop_delay)
    × All InBounds l.waits
    × (l.shutdown ≡ false → l.waits ≡ [])

next_delay-InBounds : (d : ℕ) → (d ≡ 0) ⊎ InBounds d → InBounds (next_delay d)
unfolding next_delay
next_delay-InBounds d (inl e) = ground (arith, e)
next_delay-InBounds d (inr h) = ground (arith, h.0)

if-Patient : (b : Bool) (l m : Listener) → Patient l → Patient m → Patient (if b then l else m)
if-Patient true l m h k = h
if-Patient false l m h k = k

fail-Patient : (timer : Bool) (l : Listener) → Patient l → Patient (fail timer l)
unfolding fail
fail-Patient timer l (delay, waited, before) = elim (Bool-cases l.shutdown) [
  | inl e ↦ rw (e, fail) (if-Patient timer _ _ goes_on ends)
  | inr e ↦ rw (e, fail) (inr next, waited, λ f. before e)
]
  where
    next : InBounds (next_delay l.loop_delay)
    next = next_delay-InBounds l.loop_delay delay

    goes_on : Patient (record l {
      loop_delay = next_delay l.loop_delay;
      shutdown = true;
      waits = l.waits ++ next_delay l.loop_delay ∷ [];
    })
    goes_on = (
      inr next,
      All-append InBounds l.waits (next_delay l.loop_delay ∷ []) waited (next, tt),
      λ f. cc,
    )

    ends :
        Patient
          (record l { loop_delay = next_delay l.loop_delay; shutdown = true; listening = false })
    ends = (inr next, waited, λ f. cc)

step-Patient : (l : Listener) (e : Event) → Patient l → Patient (step l e)
unfolding step
step-Patient l closes (delay, waited, before) = (delay, waited, λ e. cc)
step-Patient l (accepts c) (delay, waited, before) =
    if-Patient l.listening (record l { loop_delay = 0; handled = l.handled ++ c ∷ [] }) l
      (inl refl, waited, before) (delay, waited, before)
step-Patient l (fails timer) h = if-Patient l.listening (fail timer l) l (fail-Patient timer l h) h

run-Patient : (l : Listener) (es : List Event) → Patient l → Patient (run l es)
unfolding run
run-Patient l [] h = h
run-Patient l (e ∷ es) h = run-Patient (step l e) es (step-Patient l e h)

-- At any time the delay of `listen` is 0 or between 5 milliseconds and one second, so is each delay
-- that it has waited, and it has waited none before the transport is closed.
pub listen-Patient : (es : List Event) → Patient (run start es)
listen-Patient es = run-Patient start es (inl refl, tt, λ e. refl)
