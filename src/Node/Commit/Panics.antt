-- ===== src/Node/Commit/Panics.antt =====
-- When `CommitAncestorByBlockQC` panics: where an ancestor is no candidate.
use simple_ft.Base.{
  ℕ, zero, suc, ◌<◌, ◌≡◌, ◌≢◌, ◌↔◌, Map, IsMap, length, Option-cases, inl, inr, none, some, arith,
  put, dec_lt, nat_key, string_key,
}
use simple_ft.Data.{Block, BlockWithQc}
use simple_ft.Node.{Node}
use simple_ft.Node.Commit.{parent_key, commit_down, commit_ancestor_by_block_qc}
use simple_ft.Node.Commit.Ancestors.{Candidates, candidates, certified, commit_down_halts}
use simple_ft.Node.Commit.Laws.{parent, previous, down, commit_down-none, commit_down-some}

-- From a block at a height on down, the parent of each block that stands two or more heights above
-- `floor` is a candidate of the height below. The parent of the block one above `floor` may be none.
abbrev pub Linked : Candidates → ℕ → ℕ → Block → Type 0
Linked candidate floor zero b = Unit
Linked candidate floor (suc i) b =
    floor < i → (d : Block) × (candidate i (parent_key b) ≡ some d) × Linked candidate floor i d

module _ (candidate : Candidates) (bqc : BlockWithQc) (floor : ℕ) where
  no_block_panics :
      (i : ℕ) (blocks : Map ℕ BlockWithQc)
      → floor < i
      → commit_down candidate bqc floor i none blocks ≡ none
  unfolding commit_down
  no_block_panics zero blocks h = absurd (omega arith)
  no_block_panics (suc i) blocks h = ground arith

  Linked-commit_down :
      (i : ℕ) (b : Block) (blocks : Map ℕ BlockWithQc)
      → Linked candidate floor i b
      → commit_down candidate bqc floor i (some b) blocks ≢ none
  unfolding commit_down
  Linked-commit_down zero b blocks l = λ e. cc
  Linked-commit_down (suc i) b blocks l = elim (dec_lt floor i) [
    | yes above ↦
        let (d, found, deeper) = l above in
        ground (
          arith,
          Linked-commit_down i d (put (suc i) (certified candidate bqc floor b) blocks) deeper,
        )
    | no last ↦ ground (
      arith,
      commit_down_halts candidate bqc floor i (candidate i (parent_key b))
          (put (suc i) (certified candidate bqc floor b) blocks) (omega arith),
    )
  ]

  commit_down-Linked :
      (i : ℕ) (b : Block) (blocks : Map ℕ BlockWithQc)
      → commit_down candidate bqc floor i (some b) blocks ≢ none
      → Linked candidate floor i b
  unfolding commit_down
  commit_down-Linked zero b blocks e = tt
  commit_down-Linked (suc i) b blocks e = λ above.
      elim (Option-cases (candidate i (parent_key b))) [
        | inl missing ↦ absurd (
            ground (
              arith,
              no_block_panics i (put (suc i) (certified candidate bqc floor b) blocks) above,
            ))
        | inr (d, found) ↦ (
          d,
          found,
          commit_down-Linked i d (put (suc i) (certified candidate bqc floor b) blocks)
              (ground arith),
        )
      ]

-- With the maps of candidates proper, a certificate whose parent is a candidate, and chains of
-- different lengths: `CommitAncestorByBlockQC` does not panic exactly when, from the parent on down,
-- each block that stands two or more heights above the chain's has its own parent among the
-- candidates of the height below. The block one above the chain's height may have an unknown parent.
pub commit_ancestor-Linked :
    (n : Node) (bqc : BlockWithQc) (b : Block)
    → ((r : ℕ) → IsMap (n.block_maps r))
    → length n.chain.blocks ≢ length n.candidate_chain.blocks
    → parent n bqc ≡ some b
    → (commit_ancestor_by_block_qc n bqc ≢ none)
      ↔ Linked (candidates n) n.chain.height (previous n bqc) b
commit_ancestor-Linked n bqc b proper differ found =
    elim (Option-cases (down n bqc b proper differ found)) [
      | inl panics ↦ (
        λ goes. absurd (goes (commit_down-none n bqc b proper differ found panics)),
        λ linked. absurd (
            Linked-commit_down (candidates n) bqc n.chain.height (previous n bqc) b n.chain.blocks
              linked panics),
      )
      | inr (blocks, goes) ↦ (
        λ e.
            commit_down-Linked (candidates n) bqc n.chain.height (previous n bqc) b n.chain.blocks
              (ground arith),
        λ linked. ground (arith, commit_down-some n bqc b proper differ found blocks goes),
      )
    ]
