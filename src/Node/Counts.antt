-- ===== src/Node/Counts.antt =====
-- Invariants that count: how many tasks and broadcast messages of some kind there are.
use simple_ft.Base.{
  pick, total, total-append, total-pick, ℕ, ◌+◌, ◌≤◌, ◌≡◌, refl, Bool, List, [], ◌∷◌, ◌++◌, some,
  arith,
}
use simple_ft.Data.{Message, RequestWrappedByServer}
use simple_ft.Hashing.{Primitives}
use simple_ft.Node.{Node}
use simple_ft.Node.Votes.{Order}
use simple_ft.Node.Proposing.{Chance, Round, proposed, lost, panicked, propose_round}
use simple_ft.Node.Tasks.{
  Task, height_updated, Outcome, done, waits, panics, System, Event, propose, handler, after,
  after_round, run_task, try_task, step, run_all,
}
use simple_ft.Node.Runs.{Ensures, Then, RoundKept, try_rule, step_rule, run_all_rule}

-- The weights of tasks and messages, for every index.
pub record Weights (I : Type 0) : Type 0 where
  pub of_task : I → Task → ℕ
  pub of_message : I → Message → ℕ

module _ {I : Type 0} (w : Weights I) where
  -- How much there is of `i` in a list of tasks and a list of messages.
  abbrev pub amount : List Task → List Message → I → ℕ
  amount ts ms i = total (w.of_task i) ts + total (w.of_message i) ms

-- What holds of the state after a round and of the amounts with the message that it broadcasts.
abbrev pub RoundCounted :
    {I : Type 0} → Weights I → (Node → (I → ℕ) → Type 0) → (I → ℕ) → Round → Type 0
RoundCounted w Q f = RoundKept (λ m msg. Q m (λ i. w.of_message i msg + f i))

-- What a property of a node and of the amounts around it has to meet to hold after every run.
pub record Counted {I : Type 0} (p : Primitives) (w : Weights I) (Q : Node → (I → ℕ) → Type 0)
    : Type 0 where
  pub mono : (n : Node) (f g : I → ℕ) → ((i : I) → g i ≤ f i) → Q n f → Q n g
  pub ran :
      (order : Order) (n : Node) (t : Task) (f : I → ℕ)
      → Q n (λ i. w.of_task i t + f i)
      → Ensures (λ m ts ms. Q m (λ i. amount w ts ms i + f i)) (run_task p order n t)
  pub asked :
      (n : Node) (reqs : List RequestWrappedByServer) (f : I → ℕ)
      → Q n f
      → Q (record n { request_pool = reqs }) f
  pub light_handler : (i : I) (msg : Message) → w.of_task i (handler msg) ≡ 0
  pub light_height : (i : I) (h : ℕ) → w.of_task i (height_updated h) ≡ 0
  pub went :
      (c : Chance) (win : ℕ → Bool) (n : Node) (rest : List ℕ) (f : I → ℕ)
      → Q n f
      → RoundCounted w Q f (propose_round p c win (record n { candidate_height_updated = rest }))

module _ {I : Type 0} {p : Primitives} {w : Weights I} {Q : Node → (I → ℕ) → Type 0}
    (k : Counted p w Q) where
  open k use {mono, ran, asked, light_handler, light_height, went}

  abbrev Holds : System → Type 0
  Holds s = Q s.node (amount w s.tasks s.sent)

  added :
      (s : System) (msg : Message)
      → Holds s
      → Holds (record s { tasks = s.tasks ++ handler msg ∷ [] })
  added s msg h =
      mono s.node _ _
        (λ i.
          omega (arith, total-append (w.of_task i) s.tasks (handler msg ∷ []), light_handler i msg))
        h

  after_counts :
      (o : Outcome) (rest : List Task) (sent : List Message)
      → Ensures (λ m ts ms. Q m (λ i. amount w ts ms i + amount w rest sent i)) o
      → Then Holds (after p o rest sent)
  after_counts (done m ts ms) rest sent h =
      mono m _ _
        (λ i.
          omega (arith, total-append (w.of_task i) rest ts, total-append (w.of_message i) sent ms))
        h
  after_counts waits rest sent h = tt
  after_counts panics rest sent h = tt

  after_round_counts :
      (r : Round) (s : System)
      → RoundCounted w Q (amount w s.tasks s.sent) r
      → Then Holds (after_round p r s)
  after_round_counts (proposed m msg) s h =
      mono m _ _ (λ i. omega (arith, total-append (w.of_message i) s.sent (msg ∷ []))) h
  after_round_counts (lost m msg) s h =
      mono m _ _
        (λ i. omega (
          arith,
          total-append (w.of_task i) s.tasks (height_updated 0 ∷ []),
          total-append (w.of_message i) s.sent (msg ∷ []),
          light_height i 0,
        ))
        h
  after_round_counts panicked s h = tt

  ran_counts :
      (s : System) (order : Order) (t : Task) (i : ℕ) (rest : List Task)
      → pick i s.tasks ≡ some (t, rest)
      → Holds s
      → Then Holds (after p (try_task p order s.node t) rest s.sent)
  ran_counts s order t i rest e h = after_counts (try_task p order s.node t) rest s.sent (
      try_rule p _ order s.node t (
        ran order s.node t (amount w rest s.sent)
          (mono s.node _ _ (λ j. omega (arith, total-pick (w.of_task j) i s.tasks t rest e)) h)))

  went_counts :
      (s : System) (c : Chance) (win : ℕ → Bool)
      → Holds s
      → (l : List ℕ) → s.node.candidate_height_updated ≡ l
      → Then Holds (step p s (propose c win))
  unfolding step
  went_counts s c win h [] e = rw (e, step) tt
  went_counts s c win h (b ∷ rest) e =
      rw (e, step) (after_round_counts _ s (went c win s.node rest _ h))

  -- So the property holds after every run.
  pub counted_rule : (es : List Event) (s : System) → Holds s → Then Holds (run_all p s es)
  unfolding step
  counted_rule = run_all_rule p Holds (
      step_rule p Holds added ran_counts (λ s r h. asked s.node _ _ h)
        (λ s c win h. went_counts s c win h s.node.candidate_height_updated refl))
