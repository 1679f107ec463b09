-- ===== src/Node/Tasks.antt =====
-- The goroutines of core/node.go, each a task that waits to run, and the steps of a node: a task
-- runs to the point where it gives up the lock, and its `go` statements add tasks.
use simple_ft.Base.{
  pick, ℕ, GoString, encode_to_string, elems, Slice, Bool, true, false, ◌&&◌, List, [], ◌∷◌, ◌++◌,
  Option, none, some, if◌then◌else◌,
}
use simple_ft.Data.{
  Message, proposal, vote, sortition, Block, BlockWithQc, VoteWithPartialSig, SortitionMsg,
  RequestWrappedByServer,
}
use simple_ft.Hashing.{Primitives, hash_key}
use simple_ft.Config.{Config}
use simple_ft.Node.{Node, new_node}
use simple_ft.Node.Sortition.{handle_sortition_msg}
use simple_ft.Node.Proposing.{Chance, Round, proposed, lost, panicked, propose_round}
use simple_ft.Node.Broadcast.{author, broadcast_panics, verify_sig_ed25519}
use simple_ft.Node.Candidates.{
  handle_new_block, try_update_candidate_chain, try_extend_candidate_chain,
}
use simple_ft.Node.Votes.{
  value, error, panic, prepare_vote, cast_vote, handle_vote_msg, check_if_quorum_votes,
  build_block_with_qc, Order,
}
use simple_ft.Node.Commit.{commit_ancestor_by_block_qc, try_extend_chain, handle_new_block_qc}

pub data Task : Type 0 where
  -- `handleNewBlockMsg`
  new_block_msg : Block → Task
  -- `handleNewBlock`
  new_block : Block → Task
  -- `BroadcastVote`, up to its second lock and from there on
  broadcast_vote : Block → Task
  second_look : Block → VoteWithPartialSig → Task
  -- `tryUpdateCandidateChain`
  update_candidates : Block → Task
  -- `tryExtendCandidateChain`
  extend_candidates : Task
  -- `n.candidateHeightUpdated <- newHeight`
  height_updated : ℕ → Task
  -- `handleVoteMsg`
  vote_msg : VoteWithPartialSig → Task
  -- `checkIfQuorumVotes`
  quorum_votes : ℕ → GoString → Task
  -- `buildBlockWithQC`
  build_qc : ℕ → GoString → Task
  -- `handleNewBlockQC`, up to `Unlock` and from there on
  new_block_qc : BlockWithQc → Task
  commit_ancestors : BlockWithQc → Task
  -- `tryExtendChain`
  extend_chain : Task
  -- `handleSortitionMsg`
  sortition_msg : SortitionMsg → Task

-- How a run of a task ends: with the new state, the tasks that it starts and the messages that it
-- broadcasts; or it waits; or it panics, which ends the process.
pub data Outcome : Type 0 where
  done : Node → List Task → List Message → Outcome
  waits panics : Outcome

-- `validateBlockMsg` and `validateVoteMsg`
abbrev pub validate_block_msg : Block → Bool
validate_block_msg b = true

abbrev pub validate_vote_msg : VoteWithPartialSig → Bool
validate_vote_msg v = true

-- The tasks that take `lock`.
abbrev pub takes_lock : Task → Bool
takes_lock (new_block_msg b) = false
takes_lock (height_updated h) = false
takes_lock (sortition_msg s) = false
takes_lock _ = true

-- The tasks that follow an answer.
abbrev pub started : Bool → List Task → List Task
started true ts = ts
started false ts = []

module _ (p : Primitives) where
  -- A task that has what locks it needs.
  unfoldable pub run_task : Order → Node → Task → Outcome
  run_task order n (new_block_msg b) =
      if validate_block_msg b then done n (new_block b ∷ broadcast_vote b ∷ []) [] else done n [] []
  run_task order n (new_block b) =
      done (handle_new_block p n b)
        (update_candidates b ∷ quorum_votes b.height (hash_key p b) ∷ []) []
  run_task order n (broadcast_vote b) = elim (prepare_vote p n b) [
    | none ↦ done n [] []
    | some (value v) ↦ done n (second_look b v ∷ []) []
    | some error ↦ done n [] []
    | some panic ↦ panics
  ]
  run_task order n (second_look b v) =
      let (m, sent) = cast_vote n b in
      if sent && broadcast_panics p n (vote v)
      then panics
      else done m [] (if sent then vote v ∷ [] else [])
  run_task order n (update_candidates b) =
      let (m, extend) = try_update_candidate_chain p n b in
      done m (started extend (extend_candidates ∷ [])) []
  run_task order n extend_candidates =
      let (m, extended) = try_extend_candidate_chain n in
      elim extended [
        | none ↦ done m [] []
        | some h ↦ done m (height_updated h ∷ extend_candidates ∷ []) []
      ]
  run_task order n (height_updated h) = elim n.candidate_height_updated [
    | [] ↦ done (record n { candidate_height_updated = h ∷ [] }) [] []
    | other ∷ rest ↦ waits
  ]
  run_task order n (vote_msg v) =
      if validate_vote_msg v
      then done (handle_vote_msg n v)
          (quorum_votes v.block_height (encode_to_string (elems v.block_hash)) ∷ []) []
      else done n [] []
  run_task order n (quorum_votes height hash) =
      let (m, build) = check_if_quorum_votes n height hash in
      done m (started build (build_qc height hash ∷ [])) []
  run_task order n (build_qc height hash) = elim (build_block_with_qc p order n height hash) [
    | value bqc ↦ done n (new_block_qc bqc ∷ []) []
    | error ↦ done n [] []
    | panic ↦ panics
  ]
  run_task order n (new_block_qc bqc) =
      let (m, go_on) = handle_new_block_qc n bqc in
      done m (started go_on (commit_ancestors bqc ∷ [])) []
  run_task order n (commit_ancestors bqc) = elim (commit_ancestor_by_block_qc n bqc) [
    | none ↦ panics
    | some m ↦ done m (extend_chain ∷ []) []
  ]
  run_task order n extend_chain =
      let (m, again) = try_extend_chain n in done m (started again (extend_chain ∷ [])) []
  run_task order n (sortition_msg s) = done (handle_sortition_msg n s) [] []

  -- A task waits while the lock that it takes is held.
  unfoldable pub try_task : Order → Node → Task → Outcome
  try_task order n t = if n.locked && takes_lock t then waits else run_task order n t

-- A node with the goroutines that have not ended, and what it has broadcast.
pub record System : Type 0 where
  pub node : Node
  pub tasks : List Task
  pub sent : List Message

-- What can happen next: a message arrives, a task runs, a request comes in, or the loop that
-- proposes blocks takes a height from the channel and goes through a round.
pub data Event : Type 0 where
  receive : Message → Slice ℕ → Event
  run : ℕ → Order → Event
  request : RequestWrappedByServer → Event
  propose : Chance → (ℕ → Bool) → Event

-- The goroutine that `HandleMsgsLoop` starts for a message whose signature is right.
abbrev pub handler : Message → Task
handler (proposal b) = new_block_msg b
handler (vote v) = vote_msg v
handler (sortition s) = sortition_msg s

module _ (p : Primitives) where
  abbrev pub after : Outcome → List Task → List Message → Option System
  after (done m new msgs) rest sent =
      some (record { node = m; tasks = rest ++ new; sent = sent ++ msgs })
  after waits rest sent = none
  after panics rest sent = none

  abbrev pub after_round : Round → System → Option System
  after_round (proposed m msg) s =
      some (record { node = m; tasks = s.tasks; sent = s.sent ++ msg ∷ [] })
  after_round (lost m msg) s =
      some
        (record { node = m; tasks = s.tasks ++ height_updated 0 ∷ []; sent = s.sent ++ msg ∷ [] })
  after_round panicked s = none

  -- `none`: the event cannot happen in this state, or the process panics.
  unfoldable pub step : System → Event → Option System
  step s (receive msg sig) = elim (verify_sig_ed25519 p s.node (author msg) msg sig) [
    | none ↦ none
    | some ok ↦ if ok then some (record s { tasks = s.tasks ++ handler msg ∷ [] }) else some s
  ]
  step s (run i order) = elim (pick i s.tasks) [
    | none ↦ none
    | some (t, rest) ↦ after (try_task p order s.node t) rest s.sent
  ]
  step s (request r) =
      let n = s.node in
      some (record s { node = record n { request_pool = n.request_pool ++ r ∷ [] } })
  step s (propose c win) = elim s.node.candidate_height_updated [
    | [] ↦ none
    | h ∷ rest ↦
        let n = s.node in
        after_round (propose_round p c win (record n { candidate_height_updated = rest })) s
  ]

  unfoldable pub run_all : System → List Event → Option System
  run_all s [] = some s
  run_all s (e ∷ es) = elim (step s e) [ none ↦ none | some t ↦ run_all t es ]

  unfoldable pub start : Config → System
  start conf = record { node = new_node p conf; tasks = []; sent = [] }
