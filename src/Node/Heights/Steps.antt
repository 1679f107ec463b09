-- ===== src/Node/Heights/Steps.antt =====
-- Every step of a node keeps both chains whole.
use simple_ft.Base.{ℕ, ◌≡◌, get, nat_key, Bool, Option-cases, inl, inr, List, [], some, arith}
use simple_ft.Data.{Block}
use simple_ft.Hashing.{Primitives}
use simple_ft.Config.{Config}
use simple_ft.Node.{Node, new_node}
use simple_ft.Node.Votes.{Order, cast_vote, handle_vote_msg, check_if_quorum_votes}
use simple_ft.Node.Candidates.{
  handle_new_block, try_update_candidate_chain, try_extend_candidate_chain,
}
use simple_ft.Node.Commit.{commit_ancestor_by_block_qc, try_extend_chain, handle_new_block_qc}
use simple_ft.Node.Sortition.{handle_sortition_msg}
use simple_ft.Node.Proposing.{Chance, propose_round}
use simple_ft.Node.Tasks.{
  Task, new_block, update_candidates, extend_candidates, new_block_qc, commit_ancestors,
  extend_chain, run_task, System, Event, run_all, start,
}
use simple_ft.Node.Runs.{
  Ensures, Ensures-mono, Then→, RoundKept, RoundKept-mono, RoundKept-both, Ensures-both,
}
use simple_ft.Base.{sym, subst, string_key}
use simple_ft.Node.{genesis}
use simple_ft.Node.Runs.{node_rule}
use simple_ft.Node.Stored.{places, Stored, new_node-Stored}
use simple_ft.Node.Stored.Steps.{run_task-Stored, propose-Stored}
use simple_ft.Node.Heights.{Unbroken}
use simple_ft.Node.Heights.Sound.{
  chains, Whole, Inhabited, new_block-Inhabited, update-Inhabited, extend-Whole, register-Whole,
  extend_chain-Whole, commit-Whole,
}

-- The maps of the two states are the same.
abbrev SameMaps : Node → Node → Type 0
SameMaps m n = (m.pending_blocks ≡ n.pending_blocks) × (m.block_maps ≡ n.block_maps)

module _ (p : Primitives) where
  new_block-chains : (n : Node) (b : Block) → chains (handle_new_block p n b) ≡ chains n
  unfolding handle_new_block
  new_block-chains n b = ground arith

  update-chains : (n : Node) (b : Block) → chains (try_update_candidate_chain p n b).0 ≡ chains n
  unfolding try_update_candidate_chain
  update-chains n b = ground arith

  abbrev MovesBlocks : Task → Type 0
  MovesBlocks (new_block b) = Unit
  MovesBlocks (update_candidates b) = Unit
  MovesBlocks _ = ⊥

  abbrev MovesChains : Task → Type 0
  MovesChains extend_candidates = Unit
  MovesChains (new_block_qc bqc) = Unit
  MovesChains (commit_ancestors bqc) = Unit
  MovesChains extend_chain = Unit
  MovesChains _ = ⊥

  run_task-SameMaps :
      (order : Order) (n : Node) (t : Task)
      → (MovesBlocks t → ⊥)
      → Ensures (λ m ts ms. SameMaps m n) (run_task p order n t)
  unfolding run_task handle_vote_msg handle_sortition_msg try_extend_candidate_chain
      check_if_quorum_votes handle_new_block_qc try_extend_chain cast_vote
      commit_ancestor_by_block_qc
  run_task-SameMaps order n (new_block b) q = absurd (q tt)
  run_task-SameMaps order n (update_candidates b) q = absurd (q tt)
  run_task-SameMaps order n t q = ground arith

  run_task-same_chains :
      (order : Order) (n : Node) (t : Task)
      → (MovesChains t → ⊥)
      → Ensures (λ m ts ms. chains m ≡ chains n) (run_task p order n t)
  unfolding run_task handle_vote_msg handle_sortition_msg check_if_quorum_votes cast_vote
  run_task-same_chains order n extend_candidates q = absurd (q tt)
  run_task-same_chains order n (new_block_qc bqc) q = absurd (q tt)
  run_task-same_chains order n (commit_ancestors bqc) q = absurd (q tt)
  run_task-same_chains order n extend_chain q = absurd (q tt)
  run_task-same_chains order n (new_block b) q = new_block-chains n b
  run_task-same_chains order n (update_candidates b) q = update-chains n b
  run_task-same_chains order n t q = ground arith

  SameMaps-Inhabited : (m n : Node) → SameMaps m n → Inhabited (places n) → Inhabited (places m)
  SameMaps-Inhabited m n (e, f) w h r (inl zero_map) = rw f (w h r (inl zero_map))
  SameMaps-Inhabited m n (e, f) w h r (inr at) = rw f (w h r (inr (ground arith)))

  still_Inhabited :
      (order : Order) (n : Node) (t : Task)
      → (MovesBlocks t → ⊥)
      → Inhabited (places n)
      → Ensures (λ m ts ms. Inhabited (places m)) (run_task p order n t)
  still_Inhabited order n t q w =
      Ensures-mono (λ m ts ms. SameMaps m n) (λ m ts ms. Inhabited (places m))
        (λ m ts ms same. SameMaps-Inhabited m n same w) (run_task p order n t)
        (run_task-SameMaps order n t q)

  still_Whole :
      (order : Order) (n : Node) (t : Task)
      → (MovesChains t → ⊥)
      → Whole (chains n)
      → Ensures (λ m ts ms. Whole (chains m)) (run_task p order n t)
  still_Whole order n t q w =
      Ensures-mono (λ m ts ms. chains m ≡ chains n) (λ m ts ms. Whole (chains m))
        (λ m ts ms same. subst Whole {x = chains n} {y = chains m} (sym same) w)
        (run_task p order n t) (run_task-same_chains order n t q)

  run_task-Inhabited :
      (order : Order) (n : Node) (t : Task)
      → Stored p (places n)
      → Inhabited (places n)
      → Ensures (λ m ts ms. Inhabited (places m)) (run_task p order n t)
  unfolding run_task
  run_task-Inhabited order n (new_block b) s w = new_block-Inhabited p n b s w
  run_task-Inhabited order n (update_candidates b) s w = update-Inhabited p n b w
  run_task-Inhabited order n t s w = still_Inhabited order n t (λ q. q) w

  run_task-Whole :
      (order : Order) (n : Node) (t : Task)
      → Stored p (places n)
      → Whole (chains n)
      → Ensures (λ m ts ms. Whole (chains m)) (run_task p order n t)
  unfolding run_task
  run_task-Whole order n extend_candidates s w = ground (arith, extend-Whole p n w)
  run_task-Whole order n (new_block_qc bqc) s w = register-Whole p n bqc w
  run_task-Whole order n extend_chain s w = extend_chain-Whole p n w
  run_task-Whole order n (commit_ancestors bqc) s w =
      elim (Option-cases (commit_ancestor_by_block_qc n bqc)) [
        | inl e ↦ rw (e, run_task) tt
        | inr (m, e) ↦ rw (e, run_task) (commit-Whole p n bqc m s e w)
      ]
  run_task-Whole order n t s w = still_Whole order n t (λ q. q) w

  pub record Sound (n : Node) : Type 0 where
    pub stored : Stored p (places n)
    pub inhabited : Inhabited (places n)
    pub whole : Whole (chains n)

  run_task-Sound :
      (order : Order) (n : Node) (t : Task)
      → Sound n
      → Ensures (λ m ts ms. Sound m) (run_task p order n t)
  run_task-Sound order n t s =
      Ensures-mono (λ m ts ms. (Stored p (places m) × Inhabited (places m)) × Whole (chains m))
        (λ m ts ms. Sound m)
        (λ m ts ms ((a, b), c). record { stored = a; inhabited = b; whole = c })
        (run_task p order n t)
        (Ensures-both _ _ (run_task p order n t)
          (Ensures-both _ _ (run_task p order n t) (run_task-Stored p order n t s.stored)
            (run_task-Inhabited order n t s.stored s.inhabited))
          (run_task-Whole order n t s.stored s.whole))

  propose_round-same :
      (c : Chance) (win : ℕ → Bool) (n : Node)
      → RoundKept (λ m msg. SameMaps m n × (chains m ≡ chains n)) (propose_round p c win n)
  unfolding propose_round
  propose_round-same c win n = ground arith

  propose_round-Sound :
      (c : Chance) (win : ℕ → Bool) (n : Node)
      → Sound n
      → RoundKept (λ m msg. Sound m) (propose_round p c win n)
  propose_round-Sound c win n s =
      RoundKept-mono (λ m msg. Stored p (places m) × (SameMaps m n × (chains m ≡ chains n)))
        (λ m msg. Sound m)
        (λ m msg (a, (b, e)). record {
          stored = a;
          inhabited = SameMaps-Inhabited m n b s.inhabited;
          whole = subst Whole {x = chains n} {y = chains m} (sym e) s.whole;
        })
        (propose_round p c win n)
        (RoundKept-both _ _ (propose_round p c win n) (propose-Stored p c win n s.stored)
          (propose_round-same c win n))

  start-Sound : (conf : Config) → Sound (new_node p conf)
  unfolding new_node get
  start-Sound conf = record {
    stored = new_node-Stored p conf;
    inhabited = λ h r home. ground arith;
    whole = record {
      unbroken = λ i h. (record { block = genesis; qc = some [] }, ground arith, omega arith);
      in_order = tt;
      candidates_unbroken = λ i h. ground arith;
    };
  }

  pub run_all-Sound :
      (conf : Config) (es : List Event) (s : System)
      → run_all p (start p conf) es ≡ some s
      → Sound s.node
  unfolding start
  run_all-Sound conf es s e =
      Then→ (λ t. Sound t.node) (run_all p (start p conf) es) e
        (node_rule p Sound run_task-Sound
          (λ n reqs s. record { stored = s.stored; inhabited = s.inhabited; whole = s.whole })
          (λ c win n rest s.
            propose_round-Sound c win (record n { candidate_height_updated = rest })
              (record { stored = s.stored; inhabited = s.inhabited; whole = s.whole }))
          es (start p conf) (start-Sound conf))

  -- In every state that a node can reach from `NewNode`, each height up to the height of the chain
  -- has a committed block, whose own height it is.
  pub chain-Unbroken :
      (conf : Config) (es : List Event) (s : System)
      → run_all p (start p conf) es ≡ some s
      → Unbroken s.node.chain
  chain-Unbroken conf es s e = (run_all-Sound conf es s e).whole.unbroken
