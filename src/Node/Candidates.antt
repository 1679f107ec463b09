-- ===== src/Node/Candidates.antt =====
-- New blocks and the candidate chain: `handleNewBlock`, `tryUpdateCandidateChain` and
-- `tryExtendCandidateChain` of core/node.go. Each returns the new state.
use simple_ft.Base.{
  ℕ, ◌+◌, get, put, nat_key, string_key, Bool, true, false, [], Option, none, some, u64,
}
use simple_ft.Data.{Block}
use simple_ft.Hashing.{Primitives, hash_key}
use simple_ft.Node.{Node, store}

module _ (p : Primitives) where
  -- `pendingBlocks[height]` is made if it is not there.
  unfoldable pub ensure_pending : Node → ℕ → Node × ℕ
  ensure_pending n height = elim (get height n.pending_blocks) [
    | some r ↦ (n, r)
    | none ↦ (
      record n {
        pending_blocks = put height n.next_map n.pending_blocks;
        block_maps = store n.next_map [] n.block_maps;
        next_map = n.next_map + 1;
      },
      n.next_map,
    )
  ]

  -- `m[hash] = block`, for the map `m` at an address.
  unfoldable pub add_block : Node → ℕ → Block → Node
  add_block n r b = record n {
    block_maps = store r (put (hash_key p b) b (n.block_maps r)) n.block_maps;
  }

  -- The first part of `handleNewBlock`; the two goroutines that it starts stand in Tasks.
  unfoldable pub handle_new_block : Node → Block → Node
  unfolding ensure_pending add_block
  handle_new_block n b = let (m, r) = ensure_pending n b.height in add_block m r b

  -- With `true`, `tryExtendCandidateChain` is started.
  unfoldable pub try_update_candidate_chain : Node → Block → Node × Bool
  unfolding add_block
  try_update_candidate_chain n b = elim (get b.height n.candidate_chain.blocks) [
    | some r ↦ (add_block n r b, false)
    | none ↦ (n, true)
  ]

-- With `some`, a goroutine sends this height to the channel, and another call is started.
unfoldable pub try_extend_candidate_chain : Node → Node × Option ℕ
try_extend_candidate_chain n =
    let new_height = u64 (n.candidate_chain.height + 1) in
    elim (get new_height n.pending_blocks) [
      | none ↦ (n, none)
      | some r ↦ (
        record n {
          candidate_chain = record {
            blocks = put new_height r n.candidate_chain.blocks;
            height = new_height;
          };
        },
        some new_height,
      )
    ]
