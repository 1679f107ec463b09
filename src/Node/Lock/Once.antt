-- ===== src/Node/Lock/Once.antt =====
-- Certificates under way and certificates that wait, counted at each height, and what a task does to
-- their number.
use simple_ft.Base.{
  total, total-zero, bit, ℕ, ◌+◌, ◌≤◌, ◌≡◌, refl, GoString, u64, inl, inr, ◌⊎◌, Map, get, put,
  get-put, delete, string_key, nat_key, Bool, true, false, Option-cases, inl, inr, List, [], ◌∷◌,
  none, some, arith, ◌==◌, if◌then◌else◌,
}
use simple_ft.Data.{Message, BlockWithQc}
use simple_ft.Hashing.{Primitives}
use simple_ft.Node.{Node, flag}
use simple_ft.Node.Votes.{
  Attempt, value, error, panic, Order, cast_vote, handle_vote_msg, check_if_quorum_votes,
  build_block_with_qc,
}
use simple_ft.Node.Candidates.{
  handle_new_block, try_update_candidate_chain, try_extend_candidate_chain,
}
use simple_ft.Node.Commit.{commit_ancestor_by_block_qc, try_extend_chain, handle_new_block_qc}
use simple_ft.Node.Sortition.{handle_sortition_msg}
use simple_ft.Node.Tasks.{Task, quorum_votes, build_qc, new_block_qc, extend_chain, run_task}
use simple_ft.Node.Runs.{Ensures, Ensures-mono}
use simple_ft.Node.Counts.{Weights, amount}
use simple_ft.Node.{find_block}
use simple_ft.Node.OneVote.{flag-put}
use simple_ft.Node.Stored.{places, Stored}

-- 1 for a task that builds a certificate for the height or hands one on, up to its registration.
abbrev pub builds : ℕ → Task → ℕ
builds h (build_qc k hash) = bit (k == h)
builds h (new_block_qc bqc) = bit (bqc.height == h)
builds h _ = 0

abbrev pub weights : Weights ℕ
weights = record { of_task = builds; of_message = λ h m. 0 }

-- 1 if a certificate for the height waits in `pendingBlocksQC`.
abbrev pub present : ℕ → Map ℕ BlockWithQc → ℕ
present h m = elim (get h m) [ none ↦ 0 | some bqc ↦ 1 ]

-- No certificate is on its way, and none waits, for a height whose mark is not set, and at most one
-- for a height whose mark is set.
pub record QcOnce (n : Node) (f : ℕ → ℕ) : Type 0 where
  pub unlocked : n.locked ≡ false
  pub once : (h : ℕ) → f h + present h n.pending_blocks_qc ≤ bit (flag h n.qc_created)

pub record QcStored (p : Primitives) (n : Node) (f : ℕ → ℕ) : Type 0 where
  pub stored : Stored p (places n)
  pub certificates : QcOnce n f

present-delete-le : (h k : ℕ) (m : Map ℕ BlockWithQc) → present k (delete h m) ≤ present k m
unfolding get delete
present-delete-le h k [] = omega arith
present-delete-le h k ((j, v) ∷ m) = ground (arith, present-delete-le h k m)

present-put :
    (h k : ℕ) (b : BlockWithQc) (m : Map ℕ BlockWithQc)
    → present k (put h b m) ≡ (if h == k then 1 else present k m)
present-put h k b m = ground (arith, get-put h k b m)

-- The part of the state that this is about.
pub record Marks : Type 0 where
  pub locked : Bool
  pub waiting : Map ℕ BlockWithQc
  pub created : Map ℕ Bool

abbrev pub marks : Node → Marks
marks n = record { locked = n.locked; waiting = n.pending_blocks_qc; created = n.qc_created }

module _ (p : Primitives) where
  abbrev pub IsQuiet : Task → Type 0
  IsQuiet (quorum_votes h hash) = ⊥
  IsQuiet (build_qc h hash) = ⊥
  IsQuiet (new_block_qc bqc) = ⊥
  IsQuiet extend_chain = ⊥
  IsQuiet _ = Unit

  -- 1 for any task that builds a certificate.
  abbrev pub any_build : Task → ℕ
  any_build (build_qc k hash) = 1
  any_build (new_block_qc bqc) = 1
  any_build _ = 0

  pub run_task-quiet :
      (order : Order) (n : Node) (t : Task)
      → IsQuiet t
      → Ensures (λ m ts ms. (marks m ≡ marks n) × (total any_build ts ≡ 0)) (run_task p order n t)
  unfolding run_task handle_new_block handle_vote_msg handle_sortition_msg
      try_update_candidate_chain try_extend_candidate_chain check_if_quorum_votes
      handle_new_block_qc try_extend_chain cast_vote commit_ancestor_by_block_qc
  run_task-quiet order n (quorum_votes h hash) q = absurd q
  run_task-quiet order n (build_qc h hash) q = absurd q
  run_task-quiet order n (new_block_qc bqc) q = absurd q
  run_task-quiet order n extend_chain q = absurd q
  run_task-quiet order n t q = ground arith

  builds-le-any_build : (h : ℕ) (t : Task) → builds h t ≤ any_build t
  builds-le-any_build h t = ground arith

  builds-le : (h : ℕ) (ts : List Task) → total any_build ts ≡ 0 → total (builds h) ts ≡ 0
  builds-le h [] e = refl
  builds-le h (t ∷ ts) e = omega (arith, builds-le-any_build h t, builds-le h ts)

  abbrev pub Kept : (ℕ → ℕ) → Node → List Task → List Message → Type 0
  Kept f m ts ms = QcOnce m (λ i. amount weights ts ms i + f i)

  pub quiet-QcOnce :
      (order : Order) (n : Node) (t : Task) (f : ℕ → ℕ)
      → QcOnce n (λ i. builds i t + f i)
      → IsQuiet t
      → Ensures (Kept f) (run_task p order n t)
  quiet-QcOnce order n t f c q =
      Ensures-mono _ _
        (λ m ts ms (same, none_built). record {
          unlocked = ground (arith, c.unlocked);
          once = λ h. ground (arith, c.once h, builds-le h ts none_built, total-zero ms);
        })
        (run_task p order n t) (run_task-quiet order n t q)

  -- `checkIfQuorumVotes` starts no build, or sets the mark of a height that had none.
  check-cases :
      (n : Node) (k : ℕ) (hash : GoString)
      → (check_if_quorum_votes n k hash ≡ (n, false))
        ⊎ ((check_if_quorum_votes n k hash
              ≡ (record n { qc_created = put k true n.qc_created }, true))
            × (flag k n.qc_created ≡ false))
  unfolding check_if_quorum_votes
  check-cases n k hash = ground arith

  pub quorum-QcOnce :
      (n : Node) (k : ℕ) (hash : GoString) (f : ℕ → ℕ)
      → QcOnce n (λ i. 0 + f i)
      → (order : Order) → Ensures (Kept f) (run_task p order n (quorum_votes k hash))
  unfolding run_task
  quorum-QcOnce n k hash f c order = elim (check-cases n k hash) [
    | inl e ↦
        rw (e, run_task) (record { unlocked = c.unlocked; once = λ h. omega (arith, c.once h) })
    | inr (e, unmarked) ↦
        rw (e, run_task)
          (record {
            unlocked = c.unlocked;
            once = λ h. ground (arith, c.once h, flag-put k h n.qc_created);
          })
  ]

  -- The certificate is for the height that was asked for.
  built_height :
      (order : Order) (n : Node) (k : ℕ) (hash : GoString) (bqc : BlockWithQc)
      → Stored p (places n)
      → build_block_with_qc p order n k hash ≡ value bqc
      → bqc.height ≡ k
  unfolding build_block_with_qc find_block
  built_height order n k hash bqc s e = elim (Option-cases (get k n.pending_blocks)) [
    | inl missing ↦ ground arith
    | inr (r, at) ↦ elim (Option-cases (get hash (n.block_maps r))) [
      | inl missing ↦ ground arith
      | inr (b, found) ↦ ground (arith, s.filled k r (inr at) hash b found)
    ]
  ]

  pub build-QcOnce :
      (n : Node) (k : ℕ) (hash : GoString) (f : ℕ → ℕ)
      → Stored p (places n)
      → QcOnce n (λ i. bit (k == i) + f i)
      → (order : Order) → Ensures (Kept f) (run_task p order n (build_qc k hash))
  unfolding run_task
  build-QcOnce n k hash f s c order = built (build_block_with_qc p order n k hash) refl
    where
      built :
          (a : Attempt BlockWithQc)
          → build_block_with_qc p order n k hash ≡ a
          → Ensures (Kept f) (run_task p order n (build_qc k hash))
      built (value bqc) e =
          rw (e, run_task)
            (record {
              unlocked = c.unlocked;
              once = λ h. ground (arith, c.once h, built_height order n k hash bqc s e);
            })
      built error e =
          rw (e, run_task) (record { unlocked = c.unlocked; once = λ h. omega (arith, c.once h) })
      built panic e = rw (e, run_task) tt

  pub register-QcOnce :
      (n : Node) (bqc : BlockWithQc) (f : ℕ → ℕ)
      → QcOnce n (λ i. bit (bqc.height == i) + f i)
      → (order : Order) → Ensures (Kept f) (run_task p order n (new_block_qc bqc))
  unfolding run_task handle_new_block_qc
  register-QcOnce n bqc f c order = elim (Option-cases (get bqc.height n.pending_blocks_qc)) [
    | inl e ↦
        rw (e, run_task, handle_new_block_qc)
          (record {
            unlocked = c.unlocked;
            once = λ h. ground (arith, c.once h, present-put bqc.height h bqc n.pending_blocks_qc);
          })
    | inr (old, e) ↦ absurd (ground (arith, c.once bqc.height))
  ]

  pub extend-QcOnce :
      (n : Node) (f : ℕ → ℕ)
      → QcOnce n (λ i. 0 + f i)
      → (order : Order) → Ensures (Kept f) (run_task p order n extend_chain)
  unfolding run_task try_extend_chain
  extend-QcOnce n f c order =
      elim (Option-cases (get (u64 (n.chain.height + 1)) n.pending_blocks_qc)) [
        | inl e ↦
            rw (e, run_task, try_extend_chain)
              (record { unlocked = c.unlocked; once = λ h. omega (arith, c.once h) })
        | inr (bqc, e) ↦
            rw (e, run_task, try_extend_chain)
              (record {
                unlocked = c.unlocked;
                once = λ h. omega (
                  arith,
                  c.once h,
                  present-delete-le (u64 (n.chain.height + 1)) h n.pending_blocks_qc,
                );
              })
      ]
