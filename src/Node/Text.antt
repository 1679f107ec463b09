-- ===== src/Node/Text.antt =====
-- The texts of blocks and chains: the methods `String` of core/block.go and core/chain.go.
pub mod Laws
mod Tests
use simple_ft.Base.{
  ◌>>=◌, ℕ, zero, suc, ◌+◌, ◌-◌, ◌^◌, GoString, codes, elems, digits, encode_to_string, Map, get,
  nat_key, List, [], ◌∷◌, ◌++◌, Option, none, some, ltb, if◌then◌else◌,
}
use simple_ft.Data.{Block, BlockWithQc}
use simple_ft.Hashing.{Primitives, get_hash}
use simple_ft.Node.{Node, Chain}

module _ (p : Primitives) where
  -- `Block.String`. The error of the hash is passed over: its bytes are nil then.
  unfoldable pub block_string : Block → GoString
  unfolding get_hash
  block_string b =
      codes "{height: "
      ++ digits b.height
      ++ codes ", proposer: "
      ++ b.proposer
      ++ codes ", previosHash: "
      ++ encode_to_string (elems b.previous_hash)
      ++ codes ", currentHash: "
      ++ encode_to_string (elems (get_hash p b))
      ++ codes "}; "

  -- `BlockWithQC.String`: the certificate is left out.
  unfoldable pub block_with_qc_string : BlockWithQc → GoString
  unfolding block_string
  block_with_qc_string bwq = block_string bwq.block

  -- The loop of `Chain.String` for so many rounds from `i` on; `none` is a panic at a missing block.
  unfoldable pub chain_loop : ℕ → ℕ → Map ℕ BlockWithQc → Option GoString
  chain_loop zero i blocks = some []
  chain_loop (suc rounds) i blocks =
      let rest = chain_loop rounds (i + 1) blocks in
      do block ← get i blocks; others ← rest; some (block_with_qc_string block ++ others)

  -- `Chain.String`; `none` is no text. `int(height)` is negative from 2^63 on, and at 2^63 - 1 no
  -- `i` ends the loop.
  unfoldable pub chain_string : Chain → Option GoString
  unfolding chain_loop
  chain_string chain =
      if ltb chain.height (2 ^ 63 - 1)
      then chain_loop (chain.height + 1) 0 chain.blocks
      else if ltb chain.height (2 ^ 63)
      then none
      else some []

  -- The inner loop of `CandidateChain.String`, over the blocks of a height.
  unfoldable pub block_texts : List (GoString × Block) → GoString
  unfolding block_string
  block_texts [] = []
  block_texts ((hash, b) ∷ rest) = block_string b ++ block_texts rest

  -- What a range statement goes through, in its order; a missing map of blocks is nil.
  abbrev pub at_height :
      (Map GoString Block → List (GoString × Block))
      → (ℕ → Map GoString Block)
      → Map ℕ ℕ
      → ℕ
      → List (GoString × Block)
  at_height order maps blocks i = elim (get i blocks) [ none ↦ [] | some r ↦ order (maps r) ]

  -- A round of the outer loop.
  unfoldable pub height_text :
      (Map GoString Block → List (GoString × Block))
      → (ℕ → Map GoString Block)
      → Map ℕ ℕ
      → ℕ
      → GoString
  unfolding block_texts
  height_text order maps blocks i =
      codes "[Height: "
      ++ digits i
      ++ codes "...]"
      ++ block_texts (at_height order maps blocks i)
      ++ codes "          "

  -- The outer loop, for so many rounds from `i` on.
  unfoldable pub candidate_loop :
      (Map GoString Block → List (GoString × Block))
      → (ℕ → Map GoString Block)
      → Map ℕ ℕ
      → ℕ
      → ℕ
      → GoString
  unfolding height_text
  candidate_loop order maps blocks zero i = []
  candidate_loop order maps blocks (suc rounds) i =
      height_text order maps blocks i ++ candidate_loop order maps blocks rounds (i + 1)

  -- `CandidateChain.String`, for the order of the range statements.
  unfoldable pub candidate_chain_string :
      (Map GoString Block → List (GoString × Block)) → Node → GoString
  unfolding candidate_loop
  candidate_chain_string order n =
      let height = n.candidate_chain.height in
      candidate_loop order n.block_maps n.candidate_chain.blocks
        (if ltb height (2 ^ 63) then height else 0) 0
