-- ===== src/Network/Backing.antt =====
-- In every run of the network, the votes that a node stores were broadcast by their senders.
use simple_ft.Base.{
  some, false, get_nested, ℕ, ◌≡◌, refl, sym, GoString, get, string_key, nat_key, Bool,
  Option-cases, inl, inr, true, List, [], ◌∷◌, All, All-mono, All-append, All-pick, Occurs,
  Occurs-append, pick, length, arith,
}
use simple_ft.Data.{Block, BlockWithQc, Message, VoteWithPartialSig}
use simple_ft.Config.{Config}
use simple_ft.Hashing.{Primitives}
use simple_ft.Quorum.{quorum_num}
use simple_ft.Node.{Node, new_node}
use simple_ft.Node.Broadcast.{author, verify_sig_ed25519}
use simple_ft.Node.Votes.{votes_of}
use simple_ft.Node.Proposing.{Chance, Round, proposed, lost, panicked, propose_round}
use simple_ft.Node.Tasks.{
  Task, Outcome, done, waits, panics, vote_msg, build_qc, new_block_qc, commit_ancestors, System,
  Event, receive, run, request, propose, handler, after, after_round, try_task, step, start,
}
use simple_ft.Node.Runs.{Ensures, Then, RoundKept, RoundKept-both, try_rule, step_rule}
use simple_ft.Node.Stored.{places, Stored, new_node-Stored}
use simple_ft.Node.Stored.Steps.{propose-Stored}
use simple_ft.Node.Ballots.{Justified, voted, parent_of, Rightful, Quorate, TaskBacked, NodeBacked}
use simple_ft.Node.Ballots.Kept.{Untouched, Untouched-Backed}
use simple_ft.Node.Ballots.Steps.{Goes, run_task-Goes}

-- A fact that follows from another.
module _ (Fact Later : VoteWithPartialSig → Type 0)
    (f : (v : VoteWithPartialSig) → Fact v → Later v) where
  pub Quorate-mono : (q h : ℕ) (hash : GoString) → Quorate Fact q h hash → Quorate Later q h hash
  Quorate-mono q h hash o = record {
    senders = o.senders;
    once_each = o.once_each;
    enough = o.enough;
    each = λ a there. let (v, from, at, for, fact) = o.each a there in (v, from, at, for, f v fact);
  }

  Justified-mono :
      (p : Primitives) (q : ℕ) (b : Block) → Justified p Fact q b → Justified p Later q b
  Justified-mono p q b (voted _ o) = voted b (Quorate-mono q _ _ o)
  Justified-mono p q b (parent_of _ c j e) = parent_of b c (Justified-mono p q c j) e

  Rightful-mono :
      (p : Primitives) (q : ℕ) (e : ℕ × BlockWithQc) → Rightful p Fact q e → Rightful p Later q e
  Rightful-mono p q e (inl first) = inl first
  Rightful-mono p q e (inr j) = inr (Justified-mono p q e.1.block j)

  TaskBacked-mono :
      (p : Primitives) (conf : Config) (q : ℕ) (t : Task)
      → TaskBacked p Fact conf q t
      → TaskBacked p Later conf q t
  TaskBacked-mono p conf q (vote_msg v) h = f v h
  TaskBacked-mono p conf q (build_qc k hash) h = Quorate-mono q k hash h
  TaskBacked-mono p conf q (new_block_qc bqc) h = Quorate-mono q _ _ h
  TaskBacked-mono p conf q (commit_ancestors bqc) h = Quorate-mono q _ _ h
  TaskBacked-mono p conf q t h = tt

  NodeBacked-mono :
      (p : Primitives) (conf : Config) (q : ℕ) (n : Node)
      → NodeBacked p Fact conf q n
      → NodeBacked p Later conf q n
  NodeBacked-mono p conf q n b = record {
    same_config = b.same_config;
    same_quorum = b.same_quorum;
    stored = b.stored;
    proper = b.proper;
    arrived = λ h hash a there.
        let (v, from, at, for, fact) = b.arrived h hash a there in (v, from, at, for, f v fact);
    certified = All-mono _ _ (λ e h. Quorate-mono q _ _ h) n.pending_blocks_qc b.certified;
    committed = All-mono _ _ (Rightful-mono p q) n.chain.blocks b.committed;
  }

abbrev pub SystemBacked : Primitives → (VoteWithPartialSig → Type 0) → Config → ℕ → System → Type 0
SystemBacked p Fact conf q s =
    NodeBacked p Fact conf q s.node × All (TaskBacked p Fact conf q) s.tasks

pub SystemBacked-mono :
    (p : Primitives) (Fact Later : VoteWithPartialSig → Type 0) (conf : Config) (q : ℕ)
    → ((v : VoteWithPartialSig) → Fact v → Later v)
    → (s : System) → SystemBacked p Fact conf q s
    → SystemBacked p Later conf q s
SystemBacked-mono p Fact Later conf q f s (b, h) = (
  NodeBacked-mono Fact Later f p conf q s.node b,
  All-mono _ _ (TaskBacked-mono Fact Later f p conf q) s.tasks h,
)

module _ (p : Primitives) (Fact : VoteWithPartialSig → Type 0) (conf : Config) (q : ℕ) where
  abbrev Kept : System → Type 0
  Kept = SystemBacked p Fact conf q

  after-Backed :
      (o : Outcome) (rest : List Task) (sent : List Message)
      → All (TaskBacked p Fact conf q) rest
      → Ensures (Goes p Fact conf q) o
      → Then Kept (after p o rest sent)
  after-Backed (done m ts ms) rest sent h (b, new) = (b, All-append _ rest ts h new)
  after-Backed waits rest sent h k = tt
  after-Backed panics rest sent h k = tt

  propose_round-Untouched :
      (c : Chance) (win : ℕ → Bool) (n : Node)
      → RoundKept (λ m msg. Untouched p Fact conf q n m) (propose_round p c win n)
  unfolding propose_round
  propose_round-Untouched c win n = ground arith

  -- Where a round starts.
  abbrev round_start : Node → List ℕ → Node
  round_start n rest = record n { candidate_height_updated = rest }

  after_round-Backed :
      (r : Round) (s : System) (rest : List ℕ)
      → Kept s
      → RoundKept
          (λ m msg. Untouched p Fact conf q (round_start s.node rest) m × Stored p (places m))
          r
      → Then Kept (after_round p r s)
  unfolding votes_of
  after_round-Backed (proposed m msg) s rest (b, h) (same, stored) =
      (Untouched-Backed p Fact conf q s.node m b stored same, h)
  after_round-Backed (lost m msg) s rest (b, h) (same, stored) =
      (Untouched-Backed p Fact conf q s.node m b stored same, All-append _ s.tasks _ h (tt, tt))
  after_round-Backed panicked s rest b h = tt

  -- A message whose signature is right has to bring the fact with it.
  abbrev pub Brings : System → Event → Type 0
  Brings s (receive msg sig) =
      verify_sig_ed25519 p s.node (author msg) msg sig ≡ some true
      → TaskBacked p Fact conf q (handler msg)
  Brings s (run i order) = Unit
  Brings s (request r) = Unit
  Brings s (propose c win) = Unit

  pub step-Backed : (s : System) (e : Event) → Kept s → Brings s e → Then Kept (step p s e)
  unfolding step votes_of
  step-Backed s (receive msg sig) (b, h) brings =
      elim (Option-cases (verify_sig_ed25519 p s.node (author msg) msg sig)) [
        | inl e ↦ rw (e, step) tt
        | inr (true, e) ↦ rw (e, step) (b, All-append _ s.tasks (handler msg ∷ []) h (brings e, tt))
        | inr (false, e) ↦ rw (e, step) (b, h)
      ]
  step-Backed s (run i order) (b, h) brings = elim (Option-cases (pick i s.tasks)) [
    | inl e ↦ rw (e, step) tt
    | inr ((t, rest), e) ↦
        let (this, others) = All-pick _ i s.tasks t rest e h in
        rw (e, step)
          (after-Backed (try_task p order s.node t) rest s.sent others
            (try_rule p _ order s.node t (run_task-Goes p Fact conf q order s.node t b this)))
  ]
  step-Backed s (request r) (b, h) brings = (
    record {
      same_config = b.same_config;
      same_quorum = b.same_quorum;
      stored = b.stored;
      proper = b.proper;
      arrived = b.arrived;
      certified = b.certified;
      committed = b.committed;
    },
    h,
  )
  step-Backed s (propose c win) (b, h) brings = from_channel s.node.candidate_height_updated refl
    where
      from_channel :
          (l : List ℕ) → s.node.candidate_height_updated ≡ l → Then Kept (step p s (propose c win))
      from_channel [] e = rw (e, step) tt
      from_channel (k ∷ rest) e =
          rw (e, step)
            (after_round-Backed _ s rest (b, h)
              (RoundKept-both _ _ _ (propose_round-Untouched c win (round_start s.node rest))
                (propose-Stored p c win (round_start s.node rest) b.stored)))

  pub start-Backed : q ≡ quorum_num (length conf.cluster_addr) → Kept (start p conf)
  unfolding start votes_of get get_nested new_node
  start-Backed f = (
    record {
      same_config = refl;
      same_quorum = sym f;
      stored = new_node-Stored p conf;
      proper = λ h hash. tt;
      arrived = λ h hash a there. absurd (there refl);
      certified = tt;
      committed = (inl refl, tt);
    },
    tt,
  )

-- What a node has broadcast stays so.
pub sent-kept :
    (p : Primitives) (msg : Message) (s : System) (e : Event)
    → Occurs msg s.sent
    → Then (λ t. Occurs msg t.sent) (step p s e)
unfolding step
sent-kept p msg =
    step_rule p (λ t. Occurs msg t.sent) (λ s m h. h)
      (λ s order t i rest e h. after_sent (try_task p order s.node t) rest s.sent h) (λ s r h. h)
      (λ s c win h. from_channel s c win h s.node.candidate_height_updated refl)
  where
    after_sent :
        (o : Outcome) (rest : List Task) (sent : List Message)
        → Occurs msg sent
        → Then (λ t. Occurs msg t.sent) (after p o rest sent)
    after_sent (done m ts ms) rest sent h = Occurs-append msg sent ms h
    after_sent waits rest sent h = tt
    after_sent panics rest sent h = tt

    round_sent :
        (r : Round) (s : System)
        → Occurs msg s.sent
        → Then (λ t. Occurs msg t.sent) (after_round p r s)
    round_sent (proposed m own) s h = Occurs-append msg s.sent (own ∷ []) h
    round_sent (lost m own) s h = Occurs-append msg s.sent (own ∷ []) h
    round_sent panicked s h = tt

    from_channel :
        (s : System) (c : Chance) (win : ℕ → Bool)
        → Occurs msg s.sent
        → (l : List ℕ) → s.node.candidate_height_updated ≡ l
        → Then (λ t. Occurs msg t.sent) (step p s (propose c win))
    from_channel s c win h [] e = rw (e, step) tt
    from_channel s c win h (k ∷ rest) e = rw (e, step) (round_sent _ s h)
