-- ===== src/Node/Stored/Steps.antt =====
-- Every step of a node keeps its blocks where they belong.
use simple_ft.Base.{
  ℕ, ◌≡◌, subst, sym, GoString, nat_key, string_key, Bool, Option-cases, List, some, arith, inl,
  inr,
}
use simple_ft.Data.{Block, BlockWithQc, Message}
use simple_ft.Hashing.{Primitives}
use simple_ft.Config.{Config}
use simple_ft.Node.{Node}
use simple_ft.Node.Votes.{Order, cast_vote, handle_vote_msg, check_if_quorum_votes}
use simple_ft.Node.Commit.{commit_ancestor_by_block_qc, try_extend_chain, handle_new_block_qc}
use simple_ft.Node.Sortition.{handle_sortition_msg}
use simple_ft.Node.Proposing.{Chance, propose_round}
use simple_ft.Node.Tasks.{
  Task, new_block_msg, new_block, broadcast_vote, second_look, update_candidates, extend_candidates,
  height_updated, vote_msg, quorum_votes, build_qc, new_block_qc, commit_ancestors, extend_chain,
  sortition_msg, run_task, System, Event, run_all, start,
}
use simple_ft.Base.{◌&&◌}
use simple_ft.Data.{vote}
use simple_ft.Node.Broadcast.{broadcast_panics}
use simple_ft.Node.Runs.{Ensures-unless, Ensures, Then→, RoundKept, RoundKept-mono, node_rule}
use simple_ft.Node.Stored.{
  places, Stored, handle_new_block-Stored, try_update-Stored, try_extend-Stored, new_node-Stored,
}

cast_vote-places : (n : Node) (b : Block) → places (cast_vote n b).0 ≡ places n
unfolding cast_vote
cast_vote-places n b = ground arith

quorum-places :
    (n : Node) (h : ℕ) (hash : GoString) → places (check_if_quorum_votes n h hash).0 ≡ places n
unfolding check_if_quorum_votes
quorum-places n h hash = ground arith

new_block_qc-places :
    (n : Node) (bqc : BlockWithQc) → places (handle_new_block_qc n bqc).0 ≡ places n
unfolding handle_new_block_qc
new_block_qc-places n bqc = ground arith

extend_chain-places : (n : Node) → places (try_extend_chain n).0 ≡ places n
unfolding try_extend_chain
extend_chain-places n = ground arith

pub commit-places :
    (n : Node) (bqc : BlockWithQc) (m : Node)
    → commit_ancestor_by_block_qc n bqc ≡ some m
    → places m ≡ places n
unfolding commit_ancestor_by_block_qc
commit-places n bqc m e = ground arith

module _ (p : Primitives) where
  abbrev pub Kept : Node → List Task → List Message → Type 0
  Kept m ts ms = Stored p (places m)

  pub run_task-Stored :
      (order : Order) (n : Node) (t : Task)
      → Stored p (places n)
      → Ensures Kept (run_task p order n t)
  unfolding run_task handle_vote_msg handle_sortition_msg
  run_task-Stored order n (new_block_msg b) s = s
  run_task-Stored order n (new_block b) s = handle_new_block-Stored p n b s
  run_task-Stored order n (broadcast_vote b) s = ground arith
  run_task-Stored order n (second_look b v) s =
      Ensures-unless Kept ((cast_vote n b).1 && broadcast_panics p n (vote v)) _
        (subst (Stored p) (sym (cast_vote-places n b)) s)
  run_task-Stored order n (update_candidates b) s = try_update-Stored p n b s
  run_task-Stored order n extend_candidates s = ground (arith, try_extend-Stored p n s)
  run_task-Stored order n (height_updated h) s = ground arith
  run_task-Stored order n (vote_msg v) s = s
  run_task-Stored order n (quorum_votes h hash) s =
      subst (Stored p) (sym (quorum-places n h hash)) s
  run_task-Stored order n (build_qc h hash) s = ground arith
  run_task-Stored order n (new_block_qc bqc) s =
      subst (Stored p) (sym (new_block_qc-places n bqc)) s
  run_task-Stored order n (commit_ancestors bqc) s =
      elim (Option-cases (commit_ancestor_by_block_qc n bqc)) [
        | inl e ↦ rw (e, run_task) tt
        | inr (m, e) ↦ rw (e, run_task) (subst (Stored p) (sym (commit-places n bqc m e)) s)
      ]
  run_task-Stored order n extend_chain s = subst (Stored p) (sym (extend_chain-places n)) s
  run_task-Stored order n (sortition_msg m) s = s

  propose_round-places :
      (c : Chance) (win : ℕ → Bool) (n : Node)
      → RoundKept (λ m msg. places m ≡ places n) (propose_round p c win n)
  unfolding propose_round
  propose_round-places c win n = ground arith

  pub propose-Stored :
      (c : Chance) (win : ℕ → Bool) (n : Node)
      → Stored p (places n)
      → RoundKept (λ m msg. Stored p (places m)) (propose_round p c win n)
  propose-Stored c win n s =
      RoundKept-mono (λ m msg. places m ≡ places n) (λ m msg. Stored p (places m))
        (λ m msg e. subst (Stored p) (sym e) s) (propose_round p c win n)
        (propose_round-places c win n)

  -- In every state that a node can reach from `NewNode`: the map of blocks that the candidate chain
  -- holds for a height is the map that `pendingBlocks` holds for it, or the one that `NewNode` made
  -- for height 0; no two heights of `pendingBlocks` share a map; and each block stands under its
  -- own hash, in a map of its own height.
  pub run_all-Stored :
      (conf : Config) (es : List Event) (s : System)
      → run_all p (start p conf) es ≡ some s
      → Stored p (places s.node)
  unfolding start
  run_all-Stored conf es s e =
      Then→ (λ t. Stored p (places t.node)) (run_all p (start p conf) es) e
        (node_rule p (λ n. Stored p (places n)) run_task-Stored (λ n reqs s. s)
          (λ c win n rest s. propose-Stored c win _ s) es (start p conf) (new_node-Stored p conf))
