-- ===== src/Node/Commit.antt =====
-- The committed chain: `CommitAncestorByBlockQC`, `tryExtendChain` and the first part of
-- `handleNewBlockQC` of core/node.go.
pub mod Ancestors
pub mod Laws
pub mod Panics
mod Tests
use simple_ft.Base.{
  ℕ, zero, suc, ◌+◌, ◌-◌, ◌^◌, GoString, elems, encode_to_string, Map, get, put, delete, nat_key,
  string_key, Bool, true, false, List, [], ◌∷◌, Option, none, some, ite, length, key,
  bytes_discrete, ltb, ◌==◌, if◌then◌else◌, u64,
}
use simple_ft.Data.{Block, BlockWithQc}
use simple_ft.Node.{Node, Chain, find_block}

-- `hex.EncodeToString(block.PreviousHash)`
abbrev pub parent_key : Block → GoString
parent_key b = encode_to_string (elems b.previous_hash)

-- `bqc.Height - 1`, in uint64.
abbrev pub previous_height : ℕ → ℕ
previous_height height = u64 (height + (2 ^ 64 - 1))

-- The inner loop, `for i := previousHeight; i > n.chain.height; i--`: `candidate i hash` reads the
-- candidate chain, `floor` is the chain's height and `block` the block found last. `none` is a
-- panic: the round reads through a nil block.
unfoldable pub commit_down :
    (ℕ → GoString → Option Block)
    → BlockWithQc
    → ℕ
    → ℕ
    → Option Block
    → Map ℕ BlockWithQc
    → Option (Map ℕ BlockWithQc)
commit_down candidate bqc floor zero block blocks = some blocks
commit_down candidate bqc floor (suc i) block blocks =
    let round : Option (Map ℕ BlockWithQc) = elim block [
      | none ↦ none
      | some b ↦
          commit_down candidate bqc floor i (candidate i (parent_key b))
            (put (suc i) (record { block = b; qc = bqc.qc }) blocks)
    ] in
    if ltb floor (suc i) then round else some blocks

-- The chain after the matching entry of the outer loop.
unfoldable pub commit_from : Node → BlockWithQc → Block → Chain → Option Chain
unfolding commit_down
commit_from n bqc b chain =
    let previous = previous_height bqc.height in
    let candidate =
      λ (i : ℕ) (hash : GoString). find_block i hash n.candidate_chain.blocks n.block_maps in
    elim (commit_down candidate bqc chain.height previous (some b) chain.blocks) [
      | none ↦ none
      | some blocks ↦ some (record { blocks = blocks; height = previous })
    ]

-- The outer loop, over the candidates of the height before, in the order of the range statement.
unfoldable pub commit_loop : Node → BlockWithQc → Map GoString Block → Chain → Option Chain
commit_loop n bqc [] chain = some chain
commit_loop n bqc ((hash, b) ∷ rest) chain =
    ite (bytes_discrete hash (parent_key bqc.block))
      (elim (commit_from n bqc b chain) [ none ↦ none | some next ↦ commit_loop n bqc rest next ])
      (commit_loop n bqc rest chain)

-- `CommitAncestorByBlockQC`; `none` is a panic.
unfoldable pub commit_ancestor_by_block_qc : Node → BlockWithQc → Option Node
commit_ancestor_by_block_qc n bqc =
    let committed : Option Node = elim (get (previous_height bqc.height) n.candidate_chain.blocks) [
      | none ↦ some n
      | some r ↦ elim (commit_loop n bqc (n.block_maps r) n.chain) [
        | none ↦ none
        | some chain ↦ some (record n { chain = chain })
      ]
    ] in
    if length n.chain.blocks == length n.candidate_chain.blocks then some n else committed

-- `tryExtendChain`: with `true`, another call is started.
unfoldable pub try_extend_chain : Node → Node × Bool
try_extend_chain n =
    let new_height = u64 (n.chain.height + 1) in
    elim (get new_height n.pending_blocks_qc) [
      | none ↦ (n, false)
      | some bqc ↦ (
        record n {
          chain = record { blocks = put new_height bqc n.chain.blocks; height = new_height };
          pending_blocks_qc = delete new_height n.pending_blocks_qc;
        },
        true,
      )
    ]

-- `handleNewBlockQC` up to `Unlock`. A height that is there already makes it return with the lock
-- held; with `true` it goes on to `CommitAncestorByBlockQC`.
unfoldable pub handle_new_block_qc : Node → BlockWithQc → Node × Bool
handle_new_block_qc n bqc = elim (get bqc.height n.pending_blocks_qc) [
  | some old ↦ (record n { locked = true }, false)
  | none ↦ (record n { pending_blocks_qc = put bqc.height bqc n.pending_blocks_qc }, true)
]
