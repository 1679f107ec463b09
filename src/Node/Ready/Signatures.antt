-- ===== src/Node/Ready/Signatures.antt =====
-- The signatures of which `buildBlockWithQC` makes a certificate (core/node.go).
use simple_ft.Base.{
  ℕ, ◌<◌, ◌≡◌, refl, GoString, Slice, Map, IsMap, get, get_nested, nat_key, string_key, Bool, List,
  some, map, take, length, length-take, total, arith,
}
use simple_ft.Config.{Config}
use simple_ft.Hashing.{Primitives}
use simple_ft.Node.{Node, new_node}
use simple_ft.Node.Candidates.{
  handle_new_block, try_update_candidate_chain, add_block, ensure_pending,
  try_extend_candidate_chain,
}
use simple_ft.Node.Commit.{commit_ancestor_by_block_qc, try_extend_chain, handle_new_block_qc}
use simple_ft.Node.Sortition.{handle_sortition_msg}
use simple_ft.Node.Proposing.{Chance, propose_round}
use simple_ft.Node.Ready.{builds_for, builds-Ready}
use simple_ft.Node.Runs.{Ensures, Ensures-mono, RoundKept, RoundKept-mono, Then→, node_rule}
use simple_ft.Node.Tasks.{Task, vote_msg, run_task, System, Event, run_all, start}
use simple_ft.Node.Votes.{Order, votes_of, extract_partial_sigs, check_if_quorum_votes, cast_vote}
use simple_ft.Node.Votes.Laws.{
  partial_sigs_loop-map, get-take-some, take-IsMap, handle_vote_msg-IsMap,
}

-- A range statement goes through the entries of the map, each once.
pub record Complete (order : Order) : Type 0 where
  pub goes_through : (m : Map GoString (Slice ℕ)) → IsMap m → length (order m) ≡ length m
  pub once : (m : Map GoString (Slice ℕ)) → IsMap m → IsMap (order m)
  pub in_map :
      (m : Map GoString (Slice ℕ)) (a : GoString) (sig : Slice ℕ)
      → IsMap m
      → get a (order m) ≡ some sig
      → get a m ≡ some sig

-- No sender has two signatures for a block.
abbrev OneEach : Node → Type 0
OneEach n = (h : ℕ) (hash : GoString) → IsMap (votes_of n h hash)

module _ (p : Primitives) where
  OneEach-same : (n m : Node) → OneEach n → m.partial_sigs ≡ n.partial_sigs → OneEach m
  unfolding votes_of
  OneEach-same n m each e h hash = rw e (each h hash)

  abbrev Votes : Task → Type 0
  Votes (vote_msg v) = Unit
  Votes t = ⊥

  run_task-keeps_sigs :
      (order : Order) (n : Node) (t : Task)
      → (Votes t → ⊥)
      → Ensures (λ m ts ms. m.partial_sigs ≡ n.partial_sigs) (run_task p order n t)
  unfolding run_task handle_sortition_msg handle_new_block add_block ensure_pending
      try_update_candidate_chain try_extend_candidate_chain check_if_quorum_votes
      handle_new_block_qc try_extend_chain cast_vote commit_ancestor_by_block_qc
  run_task-keeps_sigs order n (vote_msg v) q = absurd (q tt)
  run_task-keeps_sigs order n t q = ground arith

  kept_same :
      (order : Order) (n : Node) (t : Task)
      → OneEach n
      → (Votes t → ⊥)
      → Ensures (λ m ts ms. OneEach m) (run_task p order n t)
  kept_same order n t each q =
      Ensures-mono _ _ (λ m ts ms e. OneEach-same n m each e) (run_task p order n t)
        (run_task-keeps_sigs order n t q)

  run_task-OneEach :
      (order : Order) (n : Node) (t : Task)
      → OneEach n
      → Ensures (λ m ts ms. OneEach m) (run_task p order n t)
  unfolding run_task
  run_task-OneEach order n (vote_msg v) each =
      λ h hash. handle_vote_msg-IsMap n v h hash (each h hash)
  run_task-OneEach order n t each = kept_same order n t each (λ q. q)

  propose_round-keeps_sigs :
      (c : Chance) (win : ℕ → Bool) (n : Node)
      → RoundKept (λ m msg. m.partial_sigs ≡ n.partial_sigs) (propose_round p c win n)
  unfolding propose_round
  propose_round-keeps_sigs c win n = ground arith

  -- In every state that a node reaches, each sender has one signature at most.
  run_all-OneEach :
      (conf : Config) (es : List Event) (s : System)
      → run_all p (start p conf) es ≡ some s
      → OneEach s.node
  unfolding start new_node votes_of get_nested get
  run_all-OneEach conf es s e = Then→ _ (run_all p (start p conf) es) e (
      node_rule p OneEach run_task-OneEach
        (λ n reqs each. OneEach-same n (record n { request_pool = reqs }) each refl)
        (λ c win n rest each.
          let m : Node = record n { candidate_height_updated = rest } in
          RoundKept-mono _ _ (λ k msg same. OneEach-same n k each same) (propose_round p c win m)
            (propose_round-keeps_sigs c win m))
        es (start p conf) (λ h hash. tt))

  -- In every state that a node can reach from `NewNode`: where a goroutine waits to build a
  -- certificate for a height and a hash, `extractPartialSigs` gives it exactly `quorumNum`
  -- signatures, of as many different senders, each the signature that is stored for its sender's
  -- vote for that height and hash, whatever the order of the range statement, if it goes through
  -- the entries of a map each once.
  pub extract_partial_sigs-quorum :
      (conf : Config) (es : List Event) (s : System) (h : ℕ) (hash : GoString) (order : Order)
      → run_all p (start p conf) es ≡ some s
      → 0 < total (builds_for (h, hash)) s.tasks
      → Complete order
      → (voters : Map GoString (Slice ℕ)) × IsMap voters
        × (length voters ≡ s.node.quorum_num)
        × (extract_partial_sigs order s.node h hash ≡ map (λ v. v.1) voters)
        × ((a : GoString) (sig : Slice ℕ)
            → get a voters ≡ some sig
            → get a (votes_of s.node h hash) ≡ some sig)
  unfolding extract_partial_sigs
  extract_partial_sigs-quorum conf es s h hash order e waits complete =
      let stored = votes_of s.node h hash in
      let num = s.node.quorum_num in
      let each = run_all-OneEach conf es s e h hash in
      (
        take num (order stored),
        take-IsMap num (order stored) (complete.once stored each),
        omega (
          arith,
          length-take num (order stored),
          complete.goes_through stored each,
          (builds-Ready p conf es s h hash e waits).1,
        ),
        partial_sigs_loop-map num (order stored),
        λ a sig found.
            complete.in_map stored a sig each (get-take-some num a sig (order stored) found),
      )
