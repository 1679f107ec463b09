-- ===== src/Node/Commit/Laws.antt =====
-- What `CommitAncestorByBlockQC` and `tryExtendChain` do to the chain.
use simple_ft.Base.{
  ℕ, ◌<◌, ◌≡◌, ◌≢◌, refl, subst, ◌∙◌, GoString, Map, IsMap, get, nat_key, string_key, inl, inr, ◌⊎◌,
  length, Option-cases, [], ◌∷◌, Option, none, some, arith, bytes_discrete,
}
use simple_ft.Data.{Block, BlockWithQc}
use simple_ft.Node.{Node, Chain, find_block}
use simple_ft.Node.Commit.{
  parent_key, previous_height, commit_down, commit_from, commit_loop, commit_ancestor_by_block_qc,
}
use simple_ft.Node.Commit.Ancestors.{
  Committed, candidates, commit_down-Committed, commit_down_halts,
}

-- The outer loop does nothing where no entry has the hash, in whatever order it goes.
commit_loop_missing :
    (n : Node) (bqc : BlockWithQc) (blocks : Map GoString Block) (chain : Chain)
    → get (parent_key bqc.block) blocks ≡ none
    → commit_loop n bqc blocks chain ≡ some chain
unfolding commit_loop get
commit_loop_missing n bqc [] chain e = refl
commit_loop_missing n bqc ((hash, b) ∷ rest) chain e =
    ground (arith, commit_loop_missing n bqc rest chain)

-- Where one has, the loop is one commit from that entry.
commit_loop_found :
    (n : Node) (bqc : BlockWithQc) (blocks : Map GoString Block) (chain : Chain) (b : Block)
    → IsMap blocks
    → get (parent_key bqc.block) blocks ≡ some b
    → commit_loop n bqc blocks chain ≡ commit_from n bqc b chain
unfolding commit_loop get
commit_loop_found n bqc [] chain b m e = cc
commit_loop_found n bqc ((hash, c) ∷ rest) chain b m e =
    elim (bytes_discrete hash (parent_key bqc.block)) [
      | no other ↦ ground (arith, commit_loop_found n bqc rest chain b)
      | yes here ↦ elim (Option-cases (commit_from n bqc c chain)) [
        | inl panics ↦ ground arith
        | inr (next, goes_on) ↦ ground (arith, commit_loop_missing n bqc rest next)
      ]
    ]

module _ (n : Node) (bqc : BlockWithQc) where
  abbrev pub previous : ℕ
  previous = previous_height bqc.height

  -- The block that the certified block names as its parent, among the candidates.
  abbrev pub parent : Option Block
  parent = candidates n previous (parent_key bqc.block)

  pub commit_same :
      ((length n.chain.blocks ≡ length n.candidate_chain.blocks) ⊎ (parent ≡ none))
      → commit_ancestor_by_block_qc n bqc ≡ some n
  unfolding commit_ancestor_by_block_qc find_block
  commit_same (inl same) = ground arith
  commit_same (inr missing) = elim (Option-cases (get previous n.candidate_chain.blocks)) [
    | inl none_there ↦ ground arith
    | inr (r, there) ↦ ground (arith, commit_loop_missing n bqc (n.block_maps r) n.chain)
  ]

  pub commit_found :
      (b : Block)
      → ((r : ℕ) → IsMap (n.block_maps r))
      → length n.chain.blocks ≢ length n.candidate_chain.blocks
      → parent ≡ some b
      → commit_ancestor_by_block_qc n bqc ≡ (elim (commit_from n bqc b n.chain) [
        | none ↦ none
        | some chain ↦ some (record n { chain = chain })
      ])
  unfolding commit_ancestor_by_block_qc find_block
  commit_found b proper differ found = elim (Option-cases (get previous n.candidate_chain.blocks)) [
    | inl none_there ↦ ground arith
    | inr (r, there) ↦ ground (arith, commit_loop_found n bqc (n.block_maps r) n.chain b (proper r))
  ]

  module _ (b : Block) (proper : (r : ℕ) → IsMap (n.block_maps r))
      (differ : length n.chain.blocks ≢ length n.candidate_chain.blocks)
      (found : parent ≡ some b) where
    -- The loop over the heights, from the parent down.
    abbrev pub down : Option (Map ℕ BlockWithQc)
    down = commit_down (candidates n) bqc n.chain.height previous (some b) n.chain.blocks

    -- The state with these blocks, at the parent's height.
    abbrev pub at_parent : Map ℕ BlockWithQc → Node
    at_parent blocks = record n { chain = record { blocks = blocks; height = previous } }

    pub commit_down-none : down ≡ none → commit_ancestor_by_block_qc n bqc ≡ none
    unfolding commit_from
    commit_down-none e = commit_found b proper differ found ∙ rw e

    pub commit_down-some :
        (blocks : Map ℕ BlockWithQc)
        → down ≡ some blocks
        → commit_ancestor_by_block_qc n bqc ≡ some (at_parent blocks)
    unfolding commit_from
    commit_down-some blocks e = commit_found b proper differ found ∙ rw e

  -- With the maps of candidates proper, a certificate whose parent is a candidate, and chains of
  -- different lengths: if `CommitAncestorByBlockQC` does not panic, the chain gets the height of
  -- the parent, whatever it had before; each height above the old one and up to the parent's gets the
  -- ancestor of the parent at that height, with the certificate; and every other height keeps
  -- its block.
  pub commit-Committed :
      (b : Block) (m : Node)
      → ((r : ℕ) → IsMap (n.block_maps r))
      → length n.chain.blocks ≢ length n.candidate_chain.blocks
      → parent ≡ some b
      → commit_ancestor_by_block_qc n bqc ≡ some m
      → (m.chain.height ≡ previous)
        × ((k : ℕ)
            → Committed
                (candidates n)
                bqc
                n.chain.height
                previous
                b
                n.chain.blocks
                m.chain.blocks
                k)
  commit-Committed b m proper differ found e = elim (Option-cases (down b proper differ found)) [
    | inl panics ↦ absurd (ground (arith, commit_down-none b proper differ found panics))
    | inr (blocks, goes) ↦
        let same : at_parent b proper differ found blocks ≡ m =
          ground (arith, commit_down-some b proper differ found blocks goes) in
        subst
          (λ k.
            (k.chain.height ≡ previous)
            × ((i : ℕ)
                → Committed (candidates n) bqc n.chain.height previous b n.chain.blocks
                    k.chain.blocks i))
          same
          (
            refl,
            commit_down-Committed (candidates n) bqc n.chain.height previous b n.chain.blocks blocks
                goes,
          )
  ]

  -- With the maps of candidates proper, chains of different lengths, and a certificate whose parent
  -- is a candidate below the height of the chain: `CommitAncestorByBlockQC` does not panic, keeps
  -- every block, and takes the height of the chain back to a lower one.
  pub commit_regress :
      (b : Block)
      → ((r : ℕ) → IsMap (n.block_maps r))
      → length n.chain.blocks ≢ length n.candidate_chain.blocks
      → parent ≡ some b
      → previous < n.chain.height
      → (m : Node) × (commit_ancestor_by_block_qc n bqc ≡ some m)
        × (m.chain.blocks ≡ n.chain.blocks)
        × (m.chain.height < n.chain.height)
  commit_regress b proper differ found low = (
    at_parent b proper differ found n.chain.blocks,
    commit_down-some b proper differ found n.chain.blocks (
        commit_down_halts (candidates n) bqc n.chain.height previous (some b) n.chain.blocks
          (omega arith)),
    refl,
    low,
  )
