-- ===== src/Node/Ready.antt =====
-- `buildBlockWithQC` is started for blocks that are there and have votes of a quorum, and finds both
-- whenever it runs.
mod Growth
pub mod Signatures
use simple_ft.Base.{
  total, total-zero, bit, ℕ, ◌+◌, ◌*◌, ◌≤◌, ◌<◌, ◌≡◌, ◌≢◌, refl, sym, ap, GoString, Map, get, put,
  get-put, length-le-put, nat_key, string_key, Bool, true, false, Bool-cases, Option-cases, inl,
  inr, List, [], ◌∷◌, Option, none, some, length, arith, ite, if_pos, if_neg, ◌==◌, dec_lt,
  ℕ_discrete, bytes_discrete, if◌then◌else◌, encode_to_string, elems,
}
use simple_ft.Data.{Message, proposal, vote, sortition, Block, VoteWithPartialSig}
use simple_ft.Hashing.{Primitives, hash_key}
use simple_ft.Config.{Config}
use simple_ft.Node.{Node, find_block, store, new_node}
use simple_ft.Node.Votes.{Order, votes_of, handle_vote_msg, check_if_quorum_votes, cast_vote}
use simple_ft.Node.Votes.Laws.{votes_of-handle}
use simple_ft.Node.Candidates.{
  ensure_pending, add_block, handle_new_block, try_update_candidate_chain,
  try_extend_candidate_chain,
}
use simple_ft.Node.Commit.{commit_ancestor_by_block_qc, try_extend_chain, handle_new_block_qc}
use simple_ft.Node.Sortition.{handle_sortition_msg}
use simple_ft.Node.Proposing.{Chance, propose_round}
use simple_ft.Node.Tasks.{
  Task, new_block, update_candidates, vote_msg, quorum_votes, build_qc, run_task, System, Event,
  run_all, start, handler,
}
use simple_ft.Node.Runs.{
  Ensures, Ensures-mono, Ensures-both, Then→, RoundKept, RoundKept-mono, RoundKept-both,
}
use simple_ft.Node.Counts.{Weights, amount, RoundCounted, Counted, counted_rule}
use simple_ft.Node.Stored.{places, Stored, new_node-Stored}
use simple_ft.Node.Stored.Steps.{run_task-Stored, propose-Stored}
use simple_ft.Node.Ready.Growth.{Grows, Grows-same, run_task-Grows}

-- 1 for a goroutine that builds a certificate for the block of the height with the hash.
abbrev pub builds_for : ℕ × GoString → Task → ℕ
builds_for (h, hash) (build_qc k other) =
    ite (ℕ_discrete k h) (ite (bytes_discrete other hash) 1 0) 0
builds_for i _ = 0

abbrev weights : Weights (ℕ × GoString)
weights = record { of_task = builds_for; of_message = λ i m. 0 }

-- The block is there, and has votes of a quorum.
abbrev pub Ready : Node → ℕ → GoString → Type 0
Ready n h hash =
    (find_block h hash n.pending_blocks n.block_maps ≢ none)
    × (n.quorum_num ≤ length (votes_of n h hash))

module _ (p : Primitives) where
  checked_Ready :
      (n : Node) (k : ℕ) (hash : GoString)
      → (check_if_quorum_votes n k hash).1 ≡ true
      → Ready n k hash
  unfolding check_if_quorum_votes
  checked_Ready n k hash e = ground arith

  -- A goroutine that builds a certificate is only started where all is ready.
  run_task-starts :
      (order : Order) (n : Node) (t : Task)
      → Ensures
          (λ m ts ms.
            (h : ℕ) (hash : GoString) → 0 < total (builds_for (h, hash)) ts → Ready n h hash)
          (run_task p order n t)
  unfolding run_task try_update_candidate_chain try_extend_candidate_chain handle_new_block_qc
      try_extend_chain
  run_task-starts order n (quorum_votes k other) =
      elim (Bool-cases (check_if_quorum_votes n k other).1) [
        | inr e ↦ rw (e, run_task) (λ h hash pos. absurd (omega arith))
        | inl e ↦ rw (e, run_task) (λ h hash pos. ground (arith, checked_Ready n k other e))
      ]
  run_task-starts order n t = ground arith

  -- What is kept: where a certificate is being built, all is ready.
  record AllReady (n : Node) (f : ℕ × GoString → ℕ) : Type 0 where
    stored : Stored p (places n)
    ready : (h : ℕ) (hash : GoString) → 0 < f (h, hash) → Ready n h hash

  Grows-Ready : (n m : Node) (h : ℕ) (hash : GoString) → Grows n m → Ready n h hash → Ready m h hash
  Grows-Ready n m h hash (q, found, more) (here, quorum) =
      (found h hash here, omega (arith, more h hash))

  run_task-AllReady :
      (order : Order) (n : Node) (t : Task) (f : ℕ × GoString → ℕ)
      → AllReady n (λ i. builds_for i t + f i)
      → Ensures (λ m ts ms. AllReady m (λ i. amount weights ts ms i + f i)) (run_task p order n t)
  run_task-AllReady order n t f a =
      Ensures-mono _ _
        (λ m ts ms ((s, grows), starts). record {
          stored = s;
          ready = λ h hash pos.
              Grows-Ready n m h hash grows (elim (dec_lt 0 (total (builds_for (h, hash)) ts)) [
                | yes new ↦ starts h hash new
                | no old ↦ a.ready h hash (omega (arith, total-zero ms))
              ]);
        })
        (run_task p order n t)
        (Ensures-both _ _ (run_task p order n t)
          (Ensures-both _ _ (run_task p order n t) (run_task-Stored p order n t a.stored)
            (run_task-Grows p order n t a.stored))
          (run_task-starts order n t))

  propose_round-same :
      (c : Chance) (win : ℕ → Bool) (n : Node)
      → RoundKept
          (λ m msg.
            (m.quorum_num ≡ n.quorum_num)
            × (m.pending_blocks ≡ n.pending_blocks)
            × (m.block_maps ≡ n.block_maps)
            × (m.partial_sigs ≡ n.partial_sigs))
          (propose_round p c win n)
  unfolding propose_round
  propose_round-same c win n = ground arith

  channel-Ready :
      (n : Node) (rest : List ℕ) (h : ℕ) (hash : GoString)
      → Ready n h hash
      → Ready (record n { candidate_height_updated = rest }) h hash
  unfolding votes_of
  channel-Ready n rest h hash r = r

  propose_round-AllReady :
      (c : Chance) (win : ℕ → Bool) (n : Node) (rest : List ℕ) (f : ℕ × GoString → ℕ)
      → AllReady n f
      → RoundCounted weights AllReady f
          (propose_round p c win (record n { candidate_height_updated = rest }))
  propose_round-AllReady c win n rest f a =
      let m : Node = record n { candidate_height_updated = rest } in
      RoundKept-mono _ _
        (λ k msg (s, (q, d, e, g)). record {
          stored = s;
          ready = λ h hash pos.
              Grows-Ready m k h hash (Grows-same p m k q d e g)
                (channel-Ready n rest h hash (a.ready h hash (omega arith)));
        })
        (propose_round p c win m)
        (RoundKept-both _ _ (propose_round p c win m) (propose-Stored p c win m a.stored)
          (propose_round-same c win m))

  counted : Counted p weights AllReady
  unfolding votes_of
  counted = record {
    mono = λ n f g le a. record {
      stored = a.stored;
      ready = λ h hash pos. a.ready h hash (omega (arith, le (h, hash)));
    };
    ran = run_task-AllReady;
    asked = λ n reqs f a. record { stored = a.stored; ready = a.ready };
    light_handler = handler_light;
    light_height = λ i h. refl;
    went = propose_round-AllReady;
  }
    where
      handler_light : (i : ℕ × GoString) (msg : Message) → builds_for i (handler msg) ≡ 0
      handler_light i (proposal b) = refl
      handler_light i (vote v) = refl
      handler_light i (sortition s) = refl

  -- In every state that a node can reach from `NewNode`: where a goroutine waits to build a certificate
  -- for a height and a hash, the block is among the pending blocks, so that `buildBlockWithQC`
  -- reads no nil block, and there are votes of a quorum for it.
  pub builds-Ready :
      (conf : Config) (es : List Event) (s : System) (h : ℕ) (hash : GoString)
      → run_all p (start p conf) es ≡ some s
      → 0 < total (builds_for (h, hash)) s.tasks
      → Ready s.node h hash
  unfolding start
  builds-Ready conf es s h hash e pos = holds.ready h hash (omega arith)
    where
      holds : AllReady s.node (amount weights s.tasks s.sent)
      holds = Then→ _ (run_all p (start p conf) es) e (
          counted_rule counted es (start p conf) (record {
            stored = new_node-Stored p conf;
            ready = λ k other none_yet. absurd (omega arith);
          }))
