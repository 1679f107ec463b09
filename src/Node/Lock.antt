-- ===== src/Node/Lock.antt =====
-- A quorum certificate is built at most once at a height, so that `handleNewBlockQC` never finds its
-- height taken and never returns with the lock held.
pub mod Once
use simple_ft.Base.{
  total, total-zero, bit, ℕ, ◌+◌, ◌≤◌, ◌≡◌, refl, GoString, u64, inl, inr, ◌⊎◌, Map, get, put,
  get-put, delete, string_key, nat_key, Bool, true, false, Option-cases, inl, inr, List, [], ◌∷◌,
  none, some, arith, ◌==◌, if◌then◌else◌,
}
use simple_ft.Data.{Message, proposal, vote, sortition, BlockWithQc}
use simple_ft.Hashing.{Primitives}
use simple_ft.Config.{Config}
use simple_ft.Node.{Node, flag, new_node}
use simple_ft.Node.Votes.{
  Attempt, value, error, panic, Order, cast_vote, handle_vote_msg, check_if_quorum_votes,
  build_block_with_qc,
}
use simple_ft.Node.Candidates.{
  handle_new_block, try_update_candidate_chain, try_extend_candidate_chain,
}
use simple_ft.Node.Commit.{commit_ancestor_by_block_qc, try_extend_chain, handle_new_block_qc}
use simple_ft.Node.Sortition.{handle_sortition_msg}
use simple_ft.Node.Proposing.{Chance, propose_round}
use simple_ft.Node.Tasks.{
  Task, quorum_votes, build_qc, new_block_qc, extend_chain, run_task, System, Event, run_all, start,
  handler,
}
use simple_ft.Node.Runs.{
  Ensures, Ensures-mono, Ensures-both, Then→, RoundKept, RoundKept-mono, RoundKept-both,
}
use simple_ft.Node.Counts.{Weights, amount, RoundCounted, Counted, counted_rule}
use simple_ft.Node.{find_block}
use simple_ft.Node.OneVote.{flag-put}
use simple_ft.Node.Stored.{places, Stored, new_node-Stored}
use simple_ft.Node.Stored.Steps.{run_task-Stored, propose-Stored}
use simple_ft.Node.Lock.Once.{
  builds, weights, present, QcOnce, QcStored, marks, quiet-QcOnce, quorum-QcOnce, build-QcOnce,
  register-QcOnce, extend-QcOnce, IsQuiet, any_build, Marks, Kept, run_task-quiet,
}

module _ (p : Primitives) where
  run_task-QcStored :
      (order : Order) (n : Node) (t : Task) (f : ℕ → ℕ)
      → QcStored p n (λ i. builds i t + f i)
      → Ensures (λ m ts ms. QcStored p m (λ i. amount weights ts ms i + f i)) (run_task p order n t)
  run_task-QcStored order n t f c =
      Ensures-mono _ _ (λ m ts ms (s, k). record { stored = s; certificates = k })
        (run_task p order n t)
        (Ensures-both _ _ (run_task p order n t) (run_task-Stored p order n t c.stored)
          (certified t c.certificates))
    where
      certified :
          (u : Task) → QcOnce n (λ i. builds i u + f i) → Ensures (Kept p f) (run_task p order n u)
      certified (quorum_votes k hash) q = quorum-QcOnce p n k hash f q order
      certified (build_qc k hash) q = build-QcOnce p n k hash f c.stored q order
      certified (new_block_qc bqc) q = register-QcOnce p n bqc f q order
      certified extend_chain q = extend-QcOnce p n f q order
      certified u q = quiet-QcOnce p order n u f q tt

  propose_round-marks :
      (c : Chance) (win : ℕ → Bool) (n : Node)
      → RoundKept (λ m msg. marks m ≡ marks n) (propose_round p c win n)
  unfolding propose_round
  propose_round-marks c win n = ground arith

  propose_round-QcStored :
      (c : Chance) (win : ℕ → Bool) (n : Node) (rest : List ℕ) (f : ℕ → ℕ)
      → QcStored p n f
      → RoundCounted weights
          (QcStored p)
          f
          (propose_round p c win (record n { candidate_height_updated = rest }))
  propose_round-QcStored c win n rest f q =
      let m : Node = record n { candidate_height_updated = rest } in
      RoundKept-mono _ _
        (λ k msg (s, same). record {
          stored = s;
          certificates = record {
            unlocked = ground (arith, q.certificates.unlocked);
            once = λ h. ground (arith, q.certificates.once h);
          };
        })
        (propose_round p c win m)
        (RoundKept-both _ _ (propose_round p c win m) (propose-Stored p c win m q.stored)
          (propose_round-marks c win m))

  counted : Counted p weights (QcStored p)
  counted = record {
    mono = λ n f g le c. record {
      stored = c.stored;
      certificates = record {
        unlocked = c.certificates.unlocked;
        once = λ h. omega (arith, le h, c.certificates.once h);
      };
    };
    ran = run_task-QcStored;
    asked = λ n reqs f c. record {
      stored = c.stored;
      certificates = record { unlocked = c.certificates.unlocked; once = c.certificates.once };
    };
    light_handler = handler_light;
    light_height = λ i h. refl;
    went = propose_round-QcStored;
  }
    where
      handler_light : (h : ℕ) (msg : Message) → builds h (handler msg) ≡ 0
      handler_light h (proposal b) = refl
      handler_light h (vote v) = refl
      handler_light h (sortition s) = refl

  start-QcStored : (conf : Config) → QcStored p (new_node p conf) (amount weights [] [])
  unfolding new_node get
  start-QcStored conf = record {
    stored = new_node-Stored p conf;
    certificates = record { unlocked = refl; once = λ h. omega arith };
  }

  -- Whatever arrives, and in whatever order its goroutines run: a node that starts with `NewNode`
  -- never keeps its lock, because `handleNewBlockQC` never finds a certificate for the same height;
  -- and for each height the tasks that build or register a certificate and the certificates that
  -- wait are together at most one, and none if the height is not marked in `qcCreated`.
  pub lock_released :
      (conf : Config) (es : List Event) (s : System)
      → run_all p (start p conf) es ≡ some s
      → (s.node.locked ≡ false)
        × ((h : ℕ)
            → total (builds h) s.tasks + present h s.node.pending_blocks_qc
              ≤ bit (flag h s.node.qc_created))
  unfolding start
  lock_released conf es s e = (unlocked, λ h. omega (arith, once h, total-zero s.sent))
    where
      holds : QcStored p s.node (amount weights s.tasks s.sent)
      holds =
          Then→ _ (run_all p (start p conf) es) e
            (counted_rule counted es (start p conf) (start-QcStored conf))

      open (holds.certificates) use {unlocked, once}
