-- ===== src/Node/Ready/Growth.antt =====
-- No step of a node loses a block or a vote.
use simple_ft.Base.{
  ℕ, ◌≤◌, ◌≡◌, ◌≢◌, refl, GoString, get, put, get-put, length-le-put, nat_key, string_key,
  Option-cases, inl, inr, [], none, length, arith,
}
use simple_ft.Data.{Block, VoteWithPartialSig}
use simple_ft.Hashing.{Primitives, hash_key}
use simple_ft.Node.{Node, find_block, store}
use simple_ft.Node.Votes.{Order, votes_of, handle_vote_msg, check_if_quorum_votes, cast_vote}
use simple_ft.Node.Votes.Laws.{votes_of-handle}
use simple_ft.Node.Candidates.{
  ensure_pending, add_block, handle_new_block, try_update_candidate_chain,
  try_extend_candidate_chain,
}
use simple_ft.Node.Commit.{commit_ancestor_by_block_qc, try_extend_chain, handle_new_block_qc}
use simple_ft.Node.Sortition.{handle_sortition_msg}
use simple_ft.Node.Tasks.{Task, new_block, update_candidates, vote_msg, run_task}
use simple_ft.Node.Runs.{Ensures, Ensures-mono}
use simple_ft.Node.Stored.{places, Stored}

-- No block and no vote of the first state is missing in the second.
abbrev pub Grows : Node → Node → Type 0
Grows n m =
    (m.quorum_num ≡ n.quorum_num)
    × ((h : ℕ) (hash : GoString)
        → find_block h hash n.pending_blocks n.block_maps ≢ none
        → find_block h hash m.pending_blocks m.block_maps ≢ none)
    × ((h : ℕ) (hash : GoString) → length (votes_of n h hash) ≤ length (votes_of m h hash))

module _ (p : Primitives) where
  add-Grows : (n : Node) (r : ℕ) (b : Block) → Grows n (add_block p n r b)
  unfolding add_block find_block votes_of
  add-Grows n r b = (
    refl,
    λ h hash found. ground (arith, get-put (hash_key p b) hash b (n.block_maps r)),
    λ h hash. omega arith,
  )

  ensure-Grows :
      (n : Node) (height : ℕ) → Stored p (places n) → Grows n (ensure_pending p n height).0
  unfolding ensure_pending find_block votes_of
  ensure-Grows n height s = elim (Option-cases (get height n.pending_blocks)) [
    | inr (r, e) ↦ rw (e, ensure_pending) (refl, λ h hash found. found, λ h hash. omega arith)
    | inl e ↦
        rw (e, ensure_pending) (refl, λ h hash found. kept e h hash found, λ h hash. omega arith)
  ]
    where
      kept :
          get height n.pending_blocks ≡ none
          → (h : ℕ) (hash : GoString) → find_block h hash n.pending_blocks n.block_maps ≢ none
          → find_block h hash
              (put height n.next_map n.pending_blocks)
              (store n.next_map [] n.block_maps)
            ≢ none
      kept e h hash found = elim (Option-cases (get h n.pending_blocks)) [
        | inl missing ↦ absurd (ground arith)
        | inr (r, here) ↦
            ground (arith, get-put height h n.next_map n.pending_blocks, s.placed h r here)
      ]

  vote-Grows : (n : Node) (v : VoteWithPartialSig) → Grows n (handle_vote_msg n v)
  unfolding handle_vote_msg find_block
  vote-Grows n v = (
    refl,
    λ h hash found. found,
    λ h hash. ground (
      arith,
      votes_of-handle n v h hash,
      length-le-put v.sender v.partial_sig (votes_of n h hash),
    ),
  )

  pub Grows-same :
      (n m : Node)
      → m.quorum_num ≡ n.quorum_num
      → m.pending_blocks ≡ n.pending_blocks
      → m.block_maps ≡ n.block_maps
      → m.partial_sigs ≡ n.partial_sigs
      → Grows n m
  unfolding votes_of
  Grows-same n m a b c d = (a, λ h hash found. rw (b, c) found, λ h hash. rw d (omega arith))

  Grows-trans : (a b c : Node) → Grows a b → Grows b c → Grows a c
  Grows-trans a b c (q, found, more) (r, found', more') = (
    omega arith,
    λ h hash here. found' h hash (found h hash here),
    λ h hash. omega (arith, more h hash, more' h hash),
  )

  -- The tasks that put blocks or votes in.
  abbrev Adds : Task → Type 0
  Adds (new_block b) = Unit
  Adds (update_candidates b) = Unit
  Adds (vote_msg v) = Unit
  Adds t = ⊥

  run_task-same :
      (order : Order) (n : Node) (t : Task)
      → (Adds t → ⊥)
      → Ensures
          (λ m ts ms.
            (m.quorum_num ≡ n.quorum_num)
            × (m.pending_blocks ≡ n.pending_blocks)
            × (m.block_maps ≡ n.block_maps)
            × (m.partial_sigs ≡ n.partial_sigs))
          (run_task p order n t)
  unfolding run_task handle_sortition_msg try_extend_candidate_chain check_if_quorum_votes
      handle_new_block_qc try_extend_chain cast_vote commit_ancestor_by_block_qc
  run_task-same order n (new_block b) q = absurd (q tt)
  run_task-same order n (update_candidates b) q = absurd (q tt)
  run_task-same order n (vote_msg v) q = absurd (q tt)
  run_task-same order n t q = ground arith

  still_Grows :
      (order : Order) (n : Node) (t : Task)
      → (Adds t → ⊥)
      → Ensures (λ m ts ms. Grows n m) (run_task p order n t)
  still_Grows order n t q =
      Ensures-mono _ _ (λ m ts ms (a, b, c, d). Grows-same n m a b c d) (run_task p order n t)
        (run_task-same order n t q)

  update-Grows : (n : Node) (b : Block) → Grows n (try_update_candidate_chain p n b).0
  unfolding try_update_candidate_chain
  update-Grows n b = elim (Option-cases (get b.height n.candidate_chain.blocks)) [
    | inl e ↦ rw (e, try_update_candidate_chain) (Grows-same n n refl refl refl refl)
    | inr (r, e) ↦ rw (e, try_update_candidate_chain) (add-Grows n r b)
  ]

  new_block-Grows : (n : Node) (b : Block) → Stored p (places n) → Grows n (handle_new_block p n b)
  unfolding handle_new_block
  new_block-Grows n b s =
      let (m, r) = ensure_pending p n b.height in
      Grows-trans n m (add_block p m r b) (ensure-Grows n b.height s) (add-Grows m r b)

  pub run_task-Grows :
      (order : Order) (n : Node) (t : Task)
      → Stored p (places n)
      → Ensures (λ m ts ms. Grows n m) (run_task p order n t)
  unfolding run_task
  run_task-Grows order n (new_block b) s = new_block-Grows n b s
  run_task-Grows order n (update_candidates b) s = update-Grows n b
  run_task-Grows order n (vote_msg v) s = vote-Grows n v
  run_task-Grows order n t s = still_Grows order n t (λ q. q)
