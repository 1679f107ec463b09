-- ===== src/Node/Proposing.antt =====
-- A round of `ProposeBlockLoop` (core/node.go) and `selectBlock` (core/chain.go).
pub mod Rounds
mod Tests
use simple_ft.Base.{
  ℕ, ◌+◌, GoString, Map, get, nat_key, Bool, List, [], ◌∷◌, Option, none, some, length, take, drop,
  ltb, ◌==◌, if◌then◌else◌, u64,
}
use simple_ft.Data.{
  Message, proposal, sortition, Block, RequestWrappedByServer, new_block, new_sortition_msg,
}
use simple_ft.Hashing.{Primitives, get_hash}
use simple_ft.Node.{Node}
use simple_ft.Node.Broadcast.{broadcast_panics}
use simple_ft.Node.Sortition.{choose_round, seed_for_sortition}

-- What chance decides in a round: the order of the range statement over the highest candidates and
-- the number that `rand.Intn` returns for their count.
pub record Chance : Type 0 where
  pub order : Map GoString Block → List (GoString × Block)
  pub intn : ℕ → ℕ

-- The loop of `selectBlock`.
unfoldable pub select_loop : ℕ → ℕ → List (GoString × Block) → Option Block
select_loop i ran_num [] = none
select_loop i ran_num ((hash, b) ∷ rest) =
    let next = select_loop (i + 1) ran_num rest in if i == ran_num then some b else next

-- `selectBlock`; `none` is an error.
unfoldable pub select_block : Chance → Node → Option Block
unfolding select_loop
select_block c n = elim (get n.candidate_chain.height n.candidate_chain.blocks) [
  | none ↦ none
  | some r ↦
      let count = length (n.block_maps r) in
      if count == 0 then none else select_loop 0 (c.intn count) (c.order (n.block_maps r))
]

-- How many requests go into a block.
unfoldable pub end_num : ℕ → ℕ
end_num pooled = if ltb pooled 1000 then pooled else 1000

-- The requests for a block, and the pool without them.
unfoldable pub take_requests :
    List RequestWrappedByServer → List RequestWrappedByServer × List RequestWrappedByServer
unfolding end_num
take_requests pool = (take (end_num (length pool)) pool, drop (end_num (length pool)) pool)

-- How a round ends: the new state, the message that is broadcast, and whether a goroutine sends 0
-- to the channel of heights.
pub data Round : Type 0 where
  proposed : Node → Message → Round
  lost : Node → Message → Round
  panicked : Round

module _ (p : Primitives) where
  -- The end of a round, unless `broadcast` panics.
  abbrev pub unless_panics : Node → Message → Round → Round
  unless_panics n msg round = if broadcast_panics p n msg then panicked else round

  -- A won round. A hash that fails is a panic.
  unfoldable pub propose_on : Node → Block → ℕ → Round
  unfolding take_requests
  propose_on n previous next_height =
      let (reqs, rest) = take_requests n.request_pool in
      elim (get_hash p previous) [
        | none ↦ panicked
        | some hash ↦
            let msg = proposal (new_block n.name next_height (some hash) (some reqs)) in
            unless_panics n msg (proposed (record n { request_pool = rest }) msg)
      ]

  -- The round after `selectBlock`. `win` is `Sortitioner.Once` without its proof.
  unfoldable pub finish_round : (ℕ → Bool) → Node → Block → Round
  unfolding propose_on choose_round seed_for_sortition
  finish_round win n previous =
      let next_height = u64 (previous.height + 1) in
      let (m, next_round) = choose_round n next_height in
      if win (seed_for_sortition next_height next_round)
      then propose_on m previous next_height
      else let msg = sortition (new_sortition_msg m.name next_height next_round) in
        unless_panics m msg (lost m msg)

  -- A round, as one step. The code does not hold `lock` in `selectBlock`, so that other goroutines
  -- can run between the two parts; but they share no part of the state: `selectBlock` reads the
  -- candidate chain and its blocks, and the rest the sortition results and the pool. The attempts to
  -- send go over the transport, which a node has before its loop starts (Starting.antt).
  unfoldable pub propose_round : Chance → (ℕ → Bool) → Node → Round
  unfolding finish_round select_block
  propose_round c win n = elim (select_block c n) [
    | none ↦ panicked
    | some previous ↦ finish_round win n previous
  ]
