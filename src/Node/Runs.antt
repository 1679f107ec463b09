-- ===== src/Node/Runs.antt =====
-- Rules for the steps of Node/Tasks.antt: what holds of every outcome, counts over the tasks that
-- wait, and invariants of runs.
use simple_ft.Base.{
  true, false, if◌then◌else◌, Bool, pick, ℕ, ◌≡◌, refl, inl, inr, subst, Bool, Bool-cases,
  Option-cases, List, [], ◌∷◌, ◌++◌, Option, none, some, ◌&&◌,
}
use simple_ft.Data.{Message, RequestWrappedByServer}
use simple_ft.Hashing.{Primitives}
use simple_ft.Node.{Node}
use simple_ft.Node.Votes.{Order}
use simple_ft.Node.Broadcast.{author, verify_sig_ed25519}
use simple_ft.Node.Proposing.{Chance, Round, proposed, lost, panicked, propose_round}
use simple_ft.Node.Tasks.{
  Task, Outcome, done, waits, panics, System, Event, receive, run, request, propose, handler, after,
  after_round, try_task, run_task, takes_lock, step, run_all,
}

-- What holds where the outcome is a new state.
abbrev pub Ensures {ℓ} : (Node → List Task → List Message → Type ℓ) → Outcome → Type ℓ
Ensures P (done m ts ms) = P m ts ms
Ensures P waits = Unit
Ensures P panics = Unit

pub Ensures-mono {ℓ} :
    (P Q : Node → List Task → List Message → Type ℓ)
    → ((m : Node) (ts : List Task) (ms : List Message) → P m ts ms → Q m ts ms)
    → (o : Outcome) → Ensures P o
    → Ensures Q o
Ensures-mono P Q f (done m ts ms) h = f m ts ms h
Ensures-mono P Q f waits h = tt
Ensures-mono P Q f panics h = tt

pub Ensures-both {ℓ} :
    (P Q : Node → List Task → List Message → Type ℓ) (o : Outcome)
    → Ensures P o
    → Ensures Q o
    → Ensures (λ m ts ms. P m ts ms × Q m ts ms) o
Ensures-both P Q (done m ts ms) h k = (h, k)
Ensures-both P Q waits h k = tt
Ensures-both P Q panics h k = tt

-- A panic in place of an outcome.
pub Ensures-unless {ℓ} :
    (P : Node → List Task → List Message → Type ℓ) (b : Bool) (o : Outcome)
    → Ensures P o
    → Ensures P (if b then panics else o)
Ensures-unless P true o h = tt
Ensures-unless P false o h = h

-- What holds of a state, where there is one.
abbrev pub Then {ℓ} : (System → Type ℓ) → Option System → Type ℓ
Then P none = Unit
Then P (some s) = P s

pub Then→ {ℓ} : (P : System → Type ℓ) (o : Option System) {s : System} → o ≡ some s → Then P o → P s
Then→ P none e h = cc
Then→ P (some t) e h = subst P (cc) h

-- What holds of the state after a round and of the message that it broadcasts.
abbrev pub RoundKept {ℓ} : (Node → Message → Type ℓ) → Round → Type ℓ
RoundKept P (proposed m msg) = P m msg
RoundKept P (lost m msg) = P m msg
RoundKept P panicked = Unit

pub RoundKept-mono {ℓ} :
    (P Q : Node → Message → Type ℓ)
    → ((n : Node) (msg : Message) → P n msg → Q n msg)
    → (r : Round) → RoundKept P r
    → RoundKept Q r
RoundKept-mono P Q f (proposed m msg) h = f m msg h
RoundKept-mono P Q f (lost m msg) h = f m msg h
RoundKept-mono P Q f panicked h = tt

pub RoundKept-both {ℓ} :
    (P Q : Node → Message → Type ℓ) (r : Round)
    → RoundKept P r
    → RoundKept Q r
    → RoundKept (λ m msg. P m msg × Q m msg) r
RoundKept-both P Q (proposed m msg) h k = (h, k)
RoundKept-both P Q (lost m msg) h k = (h, k)
RoundKept-both P Q panicked h k = tt

-- A task that waits for the lock changes nothing.
pub try_rule {ℓ} :
    (p : Primitives) (P : Node → List Task → List Message → Type ℓ) (order : Order) (n : Node)
    (t : Task)
    → Ensures P (run_task p order n t)
    → Ensures P (try_task p order n t)
unfolding try_task
try_rule p P order n t h = elim (Bool-cases (n.locked && takes_lock t)) [
  | inl e ↦ rw e tt
  | inr e ↦ rw e h
]

module _ {ℓ} (p : Primitives) (P : System → Type ℓ) where
  -- A step keeps what its four kinds keep.
  pub step_rule :
      ((s : System) (msg : Message) → P s → P (record s { tasks = s.tasks ++ handler msg ∷ [] }))
      → ((s : System) (order : Order) (t : Task) (i : ℕ) (rest : List Task)
          → pick i s.tasks ≡ some (t, rest)
          → P s
          → Then P (after p (try_task p order s.node t) rest s.sent))
      → ((s : System) (r : RequestWrappedByServer) → P s → Then P (step p s (request r)))
      → ((s : System) (c : Chance) (win : ℕ → Bool) → P s → Then P (step p s (propose c win)))
      → (s : System) (e : Event) → P s
      → Then P (step p s e)
  unfolding step
  step_rule added ran asked went s (receive msg sig) h =
      elim (Option-cases (verify_sig_ed25519 p s.node (author msg) msg sig)) [
        | inl e ↦ rw (e, step) tt
        | inr (true, e) ↦ rw (e, step) (added s msg h)
        | inr (false, e) ↦ rw (e, step) h
      ]
  step_rule added ran asked went s (run i order) h = elim (Option-cases (pick i s.tasks)) [
    | inl e ↦ rw (e, step) tt
    | inr ((t, rest), e) ↦ rw (e, step) (ran s order t i rest e h)
  ]
  step_rule added ran asked went s (request r) h = asked s r h
  step_rule added ran asked went s (propose c win) h = went s c win h

  pub run_all_rule :
      ((s : System) (e : Event) → P s → Then P (step p s e))
      → (es : List Event) (s : System) → P s
      → Then P (run_all p s es)
  unfolding run_all
  run_all_rule keep [] s h = h
  run_all_rule keep (e ∷ es) s h = elim (Option-cases (step p s e)) [
    | inl none_next ↦ rw (none_next, run_all) tt
    | inr (t, next) ↦
        rw (next, run_all) (run_all_rule keep es t (Then→ P (step p s e) next (keep s e h)))
  ]

-- A property of the node's own state that tasks, requests and rounds keep holds after every run.
module _ {ℓ} (p : Primitives) (Q : Node → Type ℓ) where
  after_rule :
      (o : Outcome) (rest : List Task) (sent : List Message)
      → Ensures (λ m ts ms. Q m) o
      → Then (λ s. Q s.node) (after p o rest sent)
  after_rule (done m ts ms) rest sent h = h
  after_rule waits rest sent h = tt
  after_rule panics rest sent h = tt

  after_round_rule :
      (r : Round) (s : System)
      → RoundKept (λ m msg. Q m) r
      → Then (λ t. Q t.node) (after_round p r s)
  after_round_rule (proposed m msg) s h = h
  after_round_rule (lost m msg) s h = h
  after_round_rule panicked s h = tt

  pub node_rule :
      ((order : Order) (n : Node) (t : Task)
        → Q n
        → Ensures (λ m ts ms. Q m) (run_task p order n t))
      → ((n : Node) (reqs : List RequestWrappedByServer)
          → Q n
          → Q (record n { request_pool = reqs }))
      → ((c : Chance) (win : ℕ → Bool) (n : Node) (rest : List ℕ)
          → Q n
          → RoundKept
              (λ m msg. Q m)
              (propose_round p c win (record n { candidate_height_updated = rest })))
      → (es : List Event) (s : System) → Q s.node
      → Then (λ t. Q t.node) (run_all p s es)
  unfolding step
  node_rule ran asked went =
      run_all_rule p (λ s. Q s.node)
        (step_rule p (λ s. Q s.node) (λ s t h. h)
          (λ s order t i rest e h.
            after_rule (try_task p order s.node t) rest s.sent
              (try_rule p (λ m ts ms. Q m) order s.node t (ran order s.node t h)))
          (λ s r h. asked s.node _ h) went_on)
    where
      went_on :
          (s : System) (c : Chance) (win : ℕ → Bool)
          → Q s.node
          → Then (λ t. Q t.node) (step p s (propose c win))
      went_on s c win h = from_channel s.node.candidate_height_updated refl
        where
          from_channel :
              (l : List ℕ)
              → s.node.candidate_height_updated ≡ l
              → Then (λ t. Q t.node) (step p s (propose c win))
          from_channel [] e = rw (e, step) tt
          from_channel (k ∷ rest) e = rw (e, step) (after_round_rule _ s (went c win s.node rest h))
