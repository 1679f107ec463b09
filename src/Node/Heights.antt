-- ===== src/Node/Heights.antt =====
-- The heights of the two chains: no height up to the chain's own lacks a block, and no height up to
-- the candidate chain's own lacks candidates.
pub mod Sound
pub mod Steps
use simple_ft.Base.{
  All-get, ℕ, zero, suc, ◌+◌, ◌≤◌, ◌<◌, ◌≡◌, ◌≢◌, refl, sym, subst, ◌∙◌, All, delete, GoString, Map,
  get, put, get-put, get-put_self, nat_key, string_key, inl, inr, ◌⊎◌, length, length-le-put,
  length-put_new, u64, Bool, true, false, Bool-cases, Option-cases, List, [], ◌∷◌, Option, none,
  some, arith, ltb, if◌then◌else◌, ℕ_discrete, IsMap, ite, if_pos, if_neg,
}
use simple_ft.Data.{Block, BlockWithQc}
use simple_ft.Hashing.{Primitives, hash_key}
use simple_ft.Config.{Config}
use simple_ft.Node.{Node, Chain, find_block, new_node, store}
use simple_ft.Node.Candidates.{
  ensure_pending, add_block, handle_new_block, try_update_candidate_chain,
  try_extend_candidate_chain,
}
use simple_ft.Node.Commit.{previous_height, commit_ancestor_by_block_qc, try_extend_chain}
use simple_ft.Node.Commit.Ancestors.{Candidates, Ancestor, Committed, candidates}
use simple_ft.Node.Commit.Laws.{parent, commit-Committed, commit_same}
use simple_ft.Node.Stored.{Places, places, Home, Stored}

-- A block of the height stands at the height.
abbrev pub HasBlock : Map ℕ BlockWithQc → ℕ → Type 0
HasBlock blocks i = (b : BlockWithQc) × (get i blocks ≡ some b) × (b.height ≡ i)

-- No height is missing up to the chain's own.
abbrev pub Unbroken : Chain → Type 0
Unbroken chain = (i : ℕ) → i ≤ chain.height → HasBlock chain.blocks i

-- Certificates wait under their own height.
abbrev pub AtHeight : ℕ × BlockWithQc → Type 0
AtHeight e = e.1.height ≡ e.0

abbrev pub Waiting : Map ℕ BlockWithQc → Type 0
Waiting = All AtHeight

-- The candidates that are found at a height have that height.
candidates_height :
    (p : Primitives) (n : Node)
    → Stored p (places n)
    → (i : ℕ) (hash : GoString) (b : Block) → candidates n i hash ≡ some b
    → b.height ≡ i
unfolding find_block
candidates_height p n s i hash b e = elim (Option-cases (get i n.candidate_chain.blocks)) [
  | inl missing ↦ ground arith
  | inr (r, at) ↦ (s.filled i r (s.aliased i r at) hash b (ground arith)).0
]

Ancestor-height :
    (candidate : Candidates)
    → ((i : ℕ) (hash : GoString) (b : Block) → candidate i hash ≡ some b → b.height ≡ i)
    → (i : ℕ) (b : Block) (k : ℕ) (c : Block) → b.height ≡ i
    → Ancestor candidate i b k c
    → c.height ≡ k
Ancestor-height candidate found zero b k c h (e, f) = ground arith
Ancestor-height candidate found (suc i) b k c h (inl (e, f)) = ground arith
Ancestor-height candidate found (suc i) b k c h (inr (d, e, anc)) =
    Ancestor-height candidate found i d k c (found i _ d e) anc

module _ (p : Primitives) where
  pub commit-Unbroken :
      (n : Node) (bqc : BlockWithQc) (m : Node)
      → Stored p (places n)
      → commit_ancestor_by_block_qc n bqc ≡ some m
      → Unbroken n.chain
      → Unbroken m.chain
  commit-Unbroken n bqc m s e u = elim (Option-cases (parent n bqc)) [
    | inl missing ↦ same (inr missing)
    | inr (b, found) ↦ elim (ℕ_discrete (length n.chain.blocks) (length n.candidate_chain.blocks)) [
      | yes equal ↦ same (inl equal)
      | no differ ↦
          let (top, all) = commit-Committed n bqc b m s.proper differ found e in
          λ i h. from b found i (omega arith) (all i)
    ]
  ]
    where
      same :
          ((length n.chain.blocks ≡ length n.candidate_chain.blocks) ⊎ (parent n bqc ≡ none))
          → Unbroken m.chain
      same why =
          subst (λ (k : Node). Unbroken k.chain) {x = n} {y = m}
            (ground (arith, commit_same n bqc why)) u

      from :
          (b : Block)
          → parent n bqc ≡ some b
          → (i : ℕ) → i ≤ previous_height bqc.height
          → Committed
              (candidates n)
              bqc
              n.chain.height
              (previous_height bqc.height)
              b
              n.chain.blocks
              m.chain.blocks
              i
          → HasBlock m.chain.blocks i
      from b found i h (inl (lo, hi, (c, anc, at))) = (
        record { block = c; qc = bqc.qc },
        at,
        Ancestor-height (candidates n) (candidates_height p n s) (previous_height bqc.height) b i c
            (candidates_height p n s _ _ b found) anc,
      )
      from b found i h (inr (inl low, kept)) = let (c, e, f) = u i low in (c, kept ∙ e, f)
      from b found i h (inr (inr high, kept)) = absurd (omega arith)

  pub extend-Unbroken :
      (n : Node)
      → Waiting n.pending_blocks_qc
      → Unbroken n.chain
      → Unbroken (try_extend_chain n).0.chain
  unfolding try_extend_chain
  extend-Unbroken n w u = elim (Option-cases (get (u64 (n.chain.height + 1)) n.pending_blocks_qc)) [
    | inl e ↦ rw (e, try_extend_chain) u
    | inr (bqc, e) ↦ rw (e, try_extend_chain) (λ i h. extended bqc e i h)
  ]
    where
      extended :
          (bqc : BlockWithQc)
          → get (u64 (n.chain.height + 1)) n.pending_blocks_qc ≡ some bqc
          → (i : ℕ) → i ≤ u64 (n.chain.height + 1)
          → HasBlock (put (u64 (n.chain.height + 1)) bqc n.chain.blocks) i
      extended bqc e i h = elim (ℕ_discrete (u64 (n.chain.height + 1)) i) [
        | yes here ↦ (
          bqc,
          ground (arith, get-put (u64 (n.chain.height + 1)) i bqc n.chain.blocks),
          All-get AtHeight n.pending_blocks_qc _ bqc w e ∙ here,
        )
        | no other ↦
            let (c, at, f) = u i (omega arith) in
            (c, ground (arith, get-put (u64 (n.chain.height + 1)) i bqc n.chain.blocks), f)
      ]
