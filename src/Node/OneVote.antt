-- ===== src/Node/OneVote.antt =====
-- A node votes at most once at a height: `BroadcastVote` in every interleaving.
use simple_ft.Base.{
  total, total-zero, bit, ℕ, ◌+◌, ◌≤◌, ◌≡◌, ◌≢◌, refl, Map, put, get-put, nat_key, Bool, true,
  false, Bool-cases, Option-cases, inl, inr, List, [], Option, none, some, arith, ◌==◌,
  if◌then◌else◌,
}
use simple_ft.Data.{Message, proposal, vote, sortition, Block, VoteWithPartialSig}
use simple_ft.Hashing.{Primitives}
use simple_ft.Config.{Config}
use simple_ft.Node.{Node, flag}
use simple_ft.Node.Votes.{
  value, error, panic, Order, prepare_vote, cast_vote, handle_vote_msg, check_if_quorum_votes,
}
use simple_ft.Node.Candidates.{
  handle_new_block, try_update_candidate_chain, try_extend_candidate_chain,
}
use simple_ft.Node.Commit.{commit_ancestor_by_block_qc, try_extend_chain, handle_new_block_qc}
use simple_ft.Node.Sortition.{handle_sortition_msg}
use simple_ft.Node.Proposing.{Chance, propose_round}
use simple_ft.Node.Tasks.{
  Task, broadcast_vote, second_look, run_task, System, Event, run_all, start, handler,
}
use simple_ft.Node.Broadcast.{broadcast_panics}
use simple_ft.Node.Runs.{Ensures-unless, Ensures, Ensures-mono, Then→, RoundKept, RoundKept-mono}
use simple_ft.Node.Counts.{Weights, amount, RoundCounted, Counted, counted_rule}

-- 1 for a vote at the height, 0 for other messages.
abbrev pub vote_at : ℕ → Message → ℕ
vote_at h (vote v) = bit (v.block_height == h)
vote_at h _ = 0

abbrev is_vote : Message → Bool
is_vote (vote v) = true
is_vote _ = false

vote_at-plain : (h : ℕ) (msg : Message) → is_vote msg ≡ false → vote_at h msg ≡ 0
vote_at-plain h (proposal b) e = refl
vote_at-plain h (vote v) e = cc
vote_at-plain h (sortition s) e = refl

-- 1 for a vote that waits for its second look under another height than its own.
abbrev misplaced : Task → ℕ
misplaced (second_look b v) = if v.block_height == b.height then 0 else 1
misplaced _ = 0

-- `none` counts the misplaced votes, `some h` the votes sent at `h`.
abbrev weights : Weights (Option ℕ)
weights = record {
  of_task = λ i t. elim i [ none ↦ misplaced t | some h ↦ 0 ];
  of_message = λ i m. elim i [ none ↦ 0 | some h ↦ vote_at h m ];
}

record OneVote (n : Node) (f : Option ℕ → ℕ) : Type 0 where
  in_place : f none ≡ 0
  once : (h : ℕ) → f (some h) ≤ bit (flag h n.voted)

pub flag-put :
    (h k : ℕ) (m : Map ℕ Bool) → flag k (put h true m) ≡ (if h == k then true else flag k m)
flag-put h k m = ground (arith, get-put h k true m)

module _ (p : Primitives) where
  prepared_height :
      (n : Node) (b : Block) (v : VoteWithPartialSig)
      → prepare_vote p n b ≡ some (value v)
      → v.block_height ≡ b.height
  unfolding prepare_vote
  prepared_height n b v e = ground arith

  second_look-OneVote :
      (n : Node) (b : Block) (v : VoteWithPartialSig) (f : Option ℕ → ℕ)
      → OneVote n (λ i. weights.of_task i (second_look b v) + f i)
      → (order : Order)
      → Ensures
          (λ m ts ms. OneVote m (λ i. amount weights ts ms i + f i))
          (run_task p order n (second_look b v))
  unfolding run_task cast_vote
  second_look-OneVote n b v f o order = elim (Bool-cases (flag b.height n.voted)) [
    | inl e ↦
        rw (e, run_task, cast_vote)
          (record { in_place = omega (arith, o.in_place); once = λ h. ground (arith, o.once h) })
    | inr e ↦
        rw (e, run_task, cast_vote)
          (Ensures-unless _ (broadcast_panics p n (vote v)) _ (record {
            in_place = ground (arith, o.in_place);
            once = λ h. ground (arith, o.in_place, o.once h, flag-put b.height h n.voted);
          }))
  ]

  -- Any other task sends nothing, marks nothing and misplaces no vote.
  run_task-quiet :
      (order : Order) (n : Node) (t : Task)
      → ((b : Block) (v : VoteWithPartialSig) → t ≢ second_look b v)
      → Ensures
          (λ m ts ms. (m.voted ≡ n.voted) × (total misplaced ts ≡ 0) × (ms ≡ []))
          (run_task p order n t)
  unfolding run_task handle_new_block handle_vote_msg handle_sortition_msg
      try_update_candidate_chain try_extend_candidate_chain check_if_quorum_votes
      handle_new_block_qc try_extend_chain commit_ancestor_by_block_qc
  run_task-quiet order n (second_look b v) h = absurd (h b v refl)
  run_task-quiet order n (broadcast_vote b) h = elim (Option-cases (prepare_vote p n b)) [
    | inl e ↦ rw (e, run_task) (refl, refl, refl)
    | inr (value v, e) ↦ rw (e, run_task) (ground (arith, prepared_height n b v))
    | inr (error, e) ↦ rw (e, run_task) (refl, refl, refl)
    | inr (panic, e) ↦ rw (e, run_task) tt
  ]
  run_task-quiet order n t h = ground arith

  -- The tasks that send nothing keep the property.
  quiet :
      (order : Order) (n : Node) (t : Task) (f : Option ℕ → ℕ)
      → OneVote n (λ i. weights.of_task i t + f i)
      → ((b : Block) (v : VoteWithPartialSig) → t ≢ second_look b v)
      → Ensures (λ m ts ms. OneVote m (λ i. amount weights ts ms i + f i)) (run_task p order n t)
  quiet order n t f o other =
      Ensures-mono _ _
        (λ m ts ms (marks, placed, none_sent). record {
          in_place = ground (arith, o.in_place);
          once = λ h. ground (arith, o.once h, total-zero ts);
        })
        (run_task p order n t) (run_task-quiet order n t other)

  run_task-OneVote :
      (order : Order) (n : Node) (t : Task) (f : Option ℕ → ℕ)
      → OneVote n (λ i. weights.of_task i t + f i)
      → Ensures (λ m ts ms. OneVote m (λ i. amount weights ts ms i + f i)) (run_task p order n t)
  run_task-OneVote order n (second_look b v) f o = second_look-OneVote n b v f o order
  run_task-OneVote order n t f o = quiet order n t f o (λ b v e. cc)

  propose_round-quiet :
      (c : Chance) (win : ℕ → Bool) (n : Node)
      → RoundKept (λ m msg. (m.voted ≡ n.voted) × (is_vote msg ≡ false)) (propose_round p c win n)
  unfolding propose_round
  propose_round-quiet c win n = ground arith

  propose_round-OneVote :
      (c : Chance) (win : ℕ → Bool) (n : Node) (rest : List ℕ) (f : Option ℕ → ℕ)
      → OneVote n f
      → RoundCounted weights OneVote f
          (propose_round p c win (record n { candidate_height_updated = rest }))
  propose_round-OneVote c win n rest f o =
      RoundKept-mono _ _
        (λ m msg (marks, plain). record {
          in_place = omega (arith, o.in_place);
          once = λ h. ground (arith, vote_at-plain h msg plain, o.once h);
        })
        (propose_round p c win (record n { candidate_height_updated = rest }))
        (propose_round-quiet c win (record n { candidate_height_updated = rest }))

  handler_light : (i : Option ℕ) (msg : Message) → weights.of_task i (handler msg) ≡ 0
  handler_light none (proposal b) = refl
  handler_light none (vote v) = refl
  handler_light none (sortition s) = refl
  handler_light (some h) msg = refl

  counted : Counted p weights OneVote
  counted = record {
    mono = λ n f g le o. record {
      in_place = omega (arith, le none, o.in_place);
      once = λ h. omega (arith, le (some h), o.once h);
    };
    ran = run_task-OneVote;
    asked = λ n reqs f o. record { in_place = o.in_place; once = o.once };
    light_handler = handler_light;
    light_height = λ i h. ground arith;
    went = propose_round-OneVote;
  }

  -- Whatever arrives, and in whatever order its goroutines run: a node that starts with `NewNode`
  -- hands at most one vote at each height to `broadcast`, and none at a height that is not marked
  -- in `voted`.
  pub votes_once :
      (conf : Config) (es : List Event) (s : System) (h : ℕ)
      → run_all p (start p conf) es ≡ some s
      → total (vote_at h) s.sent ≤ bit (flag h s.node.voted)
  unfolding start
  votes_once conf es s h e = omega (arith, holds.once h)
    where
      holds : OneVote s.node (amount weights s.tasks s.sent)
      holds = Then→ _ (run_all p (start p conf) es) e (
          counted_rule counted es (start p conf)
            (record { in_place = refl; once = λ k. ground arith }))
