-- ===== src/Node/Ballots/Steps.antt =====
-- Every step of a node keeps votes behind its certificates.
use simple_ft.Base.{
  some, none, Option, u64, ◌+◌, ℕ, ◌≡◌, ◌≢◌, refl, GoString, get, All-get, All-put, All-delete,
  nat_key, string_key, Bool, Option-cases, inl, inr, true, false, List, [], ◌∷◌, All, arith,
}
use simple_ft.Data.{Message, BlockWithQc, VoteWithPartialSig}
use simple_ft.Config.{Config}
use simple_ft.Hashing.{Primitives}
use simple_ft.Node.{Node}
use simple_ft.Node.Votes.{
  Attempt, value, error, panic, Order, votes_of, check_if_quorum_votes, build_block_with_qc,
  cast_vote,
}
use simple_ft.Node.Candidates.{
  handle_new_block, ensure_pending, add_block, try_update_candidate_chain,
  try_extend_candidate_chain,
}
use simple_ft.Node.Commit.{commit_ancestor_by_block_qc, try_extend_chain, handle_new_block_qc}
use simple_ft.Node.Sortition.{handle_sortition_msg}
use simple_ft.Node.Tasks.{
  done, panics, started, Task, vote_msg, quorum_votes, build_qc, new_block_qc, commit_ancestors,
  extend_chain, run_task,
}
use simple_ft.Node.Runs.{Ensures, Ensures-mono, Ensures-both}
use simple_ft.Node.Stored.Steps.{run_task-Stored}
use simple_ft.Node.Ballots.{Rightful, voted, Quorate, Certified, TaskBacked, NodeBacked}
use simple_ft.Node.Ballots.Committed.{commit_ancestor-Held}
use simple_ft.Node.Ballots.Kept.{
  SameVotes, SameVotes-Backed, Untouched, Untouched-Backed, vote-Backed, checked-Quorate,
  built-Certified,
}

module _ (p : Primitives) (Fact : VoteWithPartialSig → Type 0) (conf : Config) (q : ℕ) where
  abbrev Backed : Node → Type 0
  Backed = NodeBacked p Fact conf q

  abbrev Certificate : ℕ × BlockWithQc → Type 0
  Certificate e = Certified p Fact q e.1

  run_task-Untouched :
      (order : Order) (n : Node) (t : Task)
      → ((v : VoteWithPartialSig) → t ≢ vote_msg v)
      → ((h : ℕ) (hash : GoString) → t ≢ quorum_votes h hash)
      → ((h : ℕ) (hash : GoString) → t ≢ build_qc h hash)
      → ((bqc : BlockWithQc) → t ≢ new_block_qc bqc)
      → ((bqc : BlockWithQc) → t ≢ commit_ancestors bqc)
      → t ≢ extend_chain
      → Ensures
          (λ m ts ms. Untouched p Fact conf q n m × All (TaskBacked p Fact conf q) ts)
          (run_task p order n t)
  unfolding run_task handle_new_block ensure_pending add_block handle_sortition_msg
      try_update_candidate_chain try_extend_candidate_chain cast_vote
  run_task-Untouched order n (vote_msg v) a b c d e f = absurd (a v refl)
  run_task-Untouched order n (quorum_votes h hash) a b c d e f = absurd (b h hash refl)
  run_task-Untouched order n (build_qc h hash) a b c d e f = absurd (c h hash refl)
  run_task-Untouched order n (new_block_qc bqc) a b c d e f = absurd (d bqc refl)
  run_task-Untouched order n (commit_ancestors bqc) a b c d e f = absurd (e bqc refl)
  run_task-Untouched order n extend_chain a b c d e f = absurd (f refl)
  run_task-Untouched order n t a b c d e f = ground arith

  abbrev pub Goes : Node → List Task → List Message → Type 0
  Goes m ts ms = NodeBacked p Fact conf q m × All (TaskBacked p Fact conf q) ts

  -- The other tasks.
  run_task-rest :
      (order : Order) (n : Node) (t : Task)
      → Backed n
      → Ensures
          (λ m ts ms. Untouched p Fact conf q n m × All (TaskBacked p Fact conf q) ts)
          (run_task p order n t)
      → Ensures Goes (run_task p order n t)
  run_task-rest order n t b h =
      Ensures-mono _ _
        (λ m ts ms (s, (same, backed)). (Untouched-Backed p Fact conf q n m b s same, backed))
        (run_task p order n t)
        (Ensures-both _ _ (run_task p order n t) (run_task-Stored p order n t b.stored) h)

  started-All :
      (yes_or_no : Bool) (ts : List Task)
      → (yes_or_no ≡ true → All (TaskBacked p Fact conf q) ts)
      → All (TaskBacked p Fact conf q) (started yes_or_no ts)
  started-All true ts h = h refl
  started-All false ts h = tt

  check-Untouched :
      (n : Node) (h : ℕ) (hash : GoString)
      → Untouched p Fact conf q n (check_if_quorum_votes n h hash).0
  unfolding check_if_quorum_votes
  check-Untouched n h hash = ground arith

  build-Goes :
      (order : Order) (n : Node) (h : ℕ) (hash : GoString)
      → Backed n
      → Quorate Fact q h hash
      → Ensures Goes (run_task p order n (build_qc h hash))
  unfolding run_task
  build-Goes order n h hash b quorate = from_result (build_block_with_qc p order n h hash) refl
    where
      from_result :
          (o : Attempt BlockWithQc)
          → build_block_with_qc p order n h hash ≡ o
          → Ensures Goes (elim o [
            | value bqc ↦ done n (new_block_qc bqc ∷ []) []
            | error ↦ done n [] []
            | panic ↦ panics
          ])
      from_result (value bqc) e =
          (b, (built-Certified p Fact conf q order n h hash bqc b e quorate, tt))
      from_result error e = (b, tt)
      from_result panic e = tt

  quorum-Goes :
      (order : Order) (n : Node) (h : ℕ) (hash : GoString)
      → Backed n
      → Ensures Goes (run_task p order n (quorum_votes h hash))
  unfolding run_task
  quorum-Goes order n h hash b = run_task-rest order n (quorum_votes h hash) b (
    check-Untouched n h hash,
    started-All (check_if_quorum_votes n h hash).1 (build_qc h hash ∷ [])
        (λ e. (checked-Quorate p Fact conf q n h hash b e, tt)),
  )

  register-Goes :
      (order : Order) (n : Node) (bqc : BlockWithQc)
      → Backed n
      → Certified p Fact q bqc
      → Ensures Goes (run_task p order n (new_block_qc bqc))
  unfolding run_task handle_new_block_qc votes_of
  register-Goes order n bqc b certified = elim (Option-cases (get bqc.height n.pending_blocks_qc)) [
    | inl e ↦
        rw (e, run_task, handle_new_block_qc)
          (
            record {
              same_config = b.same_config;
              same_quorum = b.same_quorum;
              stored = b.stored;
              proper = b.proper;
              arrived = b.arrived;
              certified =
                  All-put Certificate n.pending_blocks_qc bqc.height bqc b.certified certified;
              committed = b.committed;
            },
            (certified, tt),
          )
    | inr (old, e) ↦
        rw (e, run_task, handle_new_block_qc)
          (
            Untouched-Backed p Fact conf q n (record n { locked = true }) b b.stored
                (refl, (refl, refl, refl, refl)),
            tt,
          )
  ]

  commit-SameVotes :
      (order : Order) (n : Node) (bqc : BlockWithQc)
      → Ensures
          (λ m ts ms. SameVotes p Fact conf q n m × All (TaskBacked p Fact conf q) ts)
          (run_task p order n (commit_ancestors bqc))
  unfolding run_task commit_ancestor_by_block_qc
  commit-SameVotes order n bqc = ground arith

  commit-Goes :
      (order : Order) (n : Node) (bqc : BlockWithQc)
      → Backed n
      → Certified p Fact q bqc
      → Ensures Goes (run_task p order n (commit_ancestors bqc))
  unfolding run_task
  commit-Goes order n bqc b certified =
      Ensures-mono _ _
        (λ m ts ms ((held, stored), (same, backed)).
          (SameVotes-Backed p Fact conf q n m b stored held same, backed))
        (run_task p order n (commit_ancestors bqc))
        (Ensures-both _ _ (run_task p order n (commit_ancestors bqc))
          (Ensures-both _ _ (run_task p order n (commit_ancestors bqc))
            (from_result (commit_ancestor_by_block_qc n bqc) refl)
            (run_task-Stored p order n (commit_ancestors bqc) b.stored))
          (commit-SameVotes order n bqc))
    where
      from_result :
          (o : Option Node)
          → commit_ancestor_by_block_qc n bqc ≡ o
          → Ensures
              (λ m ts ms. All (Rightful p Fact q) m.chain.blocks)
              (elim o [ none ↦ panics | some m ↦ done m (extend_chain ∷ []) [] ])
      from_result none e = tt
      from_result (some m) e =
          commit_ancestor-Held p Fact q n m bqc b.stored certified b.committed e

  extend-Goes :
      (order : Order) (n : Node) → Backed n → Ensures Goes (run_task p order n extend_chain)
  unfolding run_task try_extend_chain votes_of
  extend-Goes order n b = elim (Option-cases (get (u64 (n.chain.height + 1)) n.pending_blocks_qc)) [
    | inl e ↦ rw (e, run_task, try_extend_chain) (b, tt)
    | inr (bqc, e) ↦
        rw (e, run_task, try_extend_chain)
          (
            record {
              same_config = b.same_config;
              same_quorum = b.same_quorum;
              stored = b.stored;
              proper = b.proper;
              arrived = b.arrived;
              certified =
                  All-delete Certificate n.pending_blocks_qc (u64 (n.chain.height + 1)) b.certified;
              committed =
                  All-put (Rightful p Fact q) n.chain.blocks (u64 (n.chain.height + 1)) bqc
                    b.committed
                    (inr (
                      voted bqc.block (
                        All-get Certificate n.pending_blocks_qc (u64 (n.chain.height + 1)) bqc
                          b.certified e)));
            },
            (tt, tt),
          )
  ]

  pub run_task-Goes :
      (order : Order) (n : Node) (t : Task)
      → Backed n
      → TaskBacked p Fact conf q t
      → Ensures Goes (run_task p order n t)
  unfolding run_task
  run_task-Goes order n (vote_msg v) b fact = (vote-Backed p Fact conf q n v b fact, (tt, tt))
  run_task-Goes order n (quorum_votes h hash) b fact = quorum-Goes order n h hash b
  run_task-Goes order n (build_qc h hash) b fact = build-Goes order n h hash b fact
  run_task-Goes order n (new_block_qc bqc) b fact = register-Goes order n bqc b fact
  run_task-Goes order n (commit_ancestors bqc) b fact = commit-Goes order n bqc b fact
  run_task-Goes order n extend_chain b fact = extend-Goes order n b
  run_task-Goes order n t b fact = run_task-rest order n t b (
      run_task-Untouched order n t (λ v e. cc) (λ h hash e. cc) (λ h hash e. cc) (λ c e. cc)
        (λ c e. cc) (λ e. cc))
