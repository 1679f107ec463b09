-- ===== src/Equality/Chains.antt =====
-- `Chain.Equal` and `Chain.EqualIgnoreQC` of core/chain.go.
use simple_ft.Base.{
  ℕ, ◌≡◌, refl, ◌↔◌, Map, get, nat_key, Bool, true, false, not, ◌||◌, Option-cases, inl, inr, [],
  ◌∷◌, Option, none, some, All, length, ◌==◌, if◌then◌else◌, arith,
}
use simple_ft.Data.{BlockWithQc}
use simple_ft.Equality.{Difference, chain_heights, block_equal, block_with_qc_equal, blocks_loop}
use simple_ft.Node.{Chain}

-- The test that both begin with, and the loop; `none` is a panic.
unfoldable pub compare_chains :
    (BlockWithQc → BlockWithQc → Option Difference)
    → Chain
    → Chain
    → Option (Bool × Option Difference)
compare_chains compare chain chain2 =
    if not (length chain.blocks == length chain2.blocks) || not (chain.height == chain2.height)
    then some (false, some chain_heights)
    else blocks_loop compare chain.blocks chain2.blocks

-- `Chain.Equal`
unfoldable pub chain_equal : Chain → Chain → Option (Bool × Option Difference)
unfolding compare_chains
chain_equal = compare_chains (λ block1 block2. (block_with_qc_equal block1 block2).1)

-- `Chain.EqualIgnoreQC`
unfoldable pub chain_equal_ignore_qc : Chain → Chain → Option (Bool × Option Difference)
unfolding compare_chains
chain_equal_ignore_qc = compare_chains (λ block1 block2. (block_equal block1.block block2.block).1)

-- The other chain has a block at the height of the entry, in which the comparison finds no difference.
abbrev pub Agrees :
    (BlockWithQc → BlockWithQc → Option Difference) → Map ℕ BlockWithQc → ℕ × BlockWithQc → Type 0
Agrees compare blocks2 e = (b : BlockWithQc) × (get e.0 blocks2 ≡ some b) × (compare e.1 b ≡ none)

module _ (compare : BlockWithQc → BlockWithQc → Option Difference) where
  blocks_loop-to :
      (m m2 : Map ℕ BlockWithQc)
      → blocks_loop compare m m2 ≡ some (true, none)
      → All (Agrees compare m2) m
  unfolding blocks_loop
  blocks_loop-to [] m2 e = tt
  blocks_loop-to ((i, b) ∷ rest) m2 e = elim (Option-cases (get i m2)) [
    | inl missing ↦ absurd (ground arith)
    | inr (b2, found) ↦ elim (Option-cases (compare b b2)) [
      | inl same ↦ ((b2, found, same), blocks_loop-to rest m2 (ground arith))
      | inr (d, differ) ↦ absurd (ground arith)
    ]
  ]

  blocks_loop-from :
      (m m2 : Map ℕ BlockWithQc)
      → All (Agrees compare m2) m
      → blocks_loop compare m m2 ≡ some (true, none)
  unfolding blocks_loop
  blocks_loop-from [] m2 h = refl
  blocks_loop-from ((i, b) ∷ rest) m2 ((b2, found, same), h) =
      ground (arith, blocks_loop-from rest m2 h)

  -- The chains compare as equal without a panic.
  compare_chains_iff :
      (chain chain2 : Chain)
      → (compare_chains compare chain chain2 ≡ some (true, none)) ↔ (
          (length chain.blocks ≡ length chain2.blocks)
          × (chain.height ≡ chain2.height)
          × All (Agrees compare chain2.blocks) chain.blocks)
  unfolding compare_chains
  compare_chains_iff chain chain2 = ground (
    arith,
    blocks_loop-to chain.blocks chain2.blocks,
    blocks_loop-from chain.blocks chain2.blocks,
  )

-- `Chain.Equal` returns true, without a panic, exactly when the chains have equally many blocks and
-- the same height, and the second has at each height of the first a block with a certificate
-- in which `BlockWithQC.Equal` finds no difference; and `Chain.EqualIgnoreQC` exactly when
-- `Block.Equal` finds none in these blocks.
pub chain_equal_iff :
    (chain chain2 : Chain)
    → ((chain_equal chain chain2 ≡ some (true, none)) ↔ (
        (length chain.blocks ≡ length chain2.blocks)
        × (chain.height ≡ chain2.height)
        × All (Agrees (λ b c. (block_with_qc_equal b c).1) chain2.blocks) chain.blocks))
      × ((chain_equal_ignore_qc chain chain2 ≡ some (true, none)) ↔ (
          (length chain.blocks ≡ length chain2.blocks)
          × (chain.height ≡ chain2.height)
          × All (Agrees (λ b c. (block_equal b.block c.block).1) chain2.blocks) chain.blocks))
unfolding chain_equal chain_equal_ignore_qc
chain_equal_iff chain chain2 =
    (compare_chains_iff _ chain chain2, compare_chains_iff _ chain chain2)
