-- ===== src/Node/Ballots/Committed.antt =====
-- What a certificate commits is justified by it.
use simple_ft.Base.{
  ℕ, zero, suc, ◌≡◌, subst, ◌∙◌, GoString, Map, get, put, nat_key, string_key, All, All-put,
  Bool-cases, Option-cases, inl, inr, ◌⊎◌, Option, none, some, length, ltb, arith, ℕ_discrete,
}
use simple_ft.Data.{Block, BlockWithQc, VoteWithPartialSig}
use simple_ft.Hashing.{Primitives, hash_key}
use simple_ft.Node.{Node, find_block}
use simple_ft.Node.Ballots.{Certified, Justified, voted, parent_of, Rightful}
use simple_ft.Node.Commit.{parent_key, commit_down, commit_ancestor_by_block_qc}
use simple_ft.Node.Commit.Ancestors.{Candidates, candidates}
use simple_ft.Node.Commit.Laws.{
  parent, previous, down, commit_same, commit_down-none, commit_down-some, at_parent,
}
use simple_ft.Node.Stored.{places, Stored}

module _ (p : Primitives) (Fact : VoteWithPartialSig → Type 0) (q : ℕ) where
  abbrev Held : Map ℕ BlockWithQc → Type 0
  Held = All (Rightful p Fact q)

  -- The blocks that are found have the hash that is asked for.
  abbrev Finds : Candidates → Type 0
  Finds candidate =
      (i : ℕ) (hash : GoString) (b : Block) → candidate i hash ≡ some b → hash ≡ hash_key p b

  candidates-Finds : (n : Node) → Stored p (places n) → Finds (candidates n)
  unfolding find_block
  candidates-Finds n s i hash b e = elim (Option-cases (get i n.candidate_chain.blocks)) [
    | inl missing ↦ absurd (ground arith)
    | inr (r, at) ↦ (s.filled i r (s.aliased i r at) hash b (ground arith)).1
  ]

  commit_down-Held :
      (candidate : Candidates) (bqc : BlockWithQc) (floor : ℕ)
      → Finds candidate
      → (i : ℕ) (block : Option Block) (blocks after : Map ℕ BlockWithQc)
      → ((b : Block) → block ≡ some b → Justified p Fact q b)
      → Held blocks
      → commit_down candidate bqc floor i block blocks ≡ some after
      → Held after
  unfolding commit_down
  commit_down-Held candidate bqc floor finds zero block blocks after j h e =
      subst Held (ground arith) h
  commit_down-Held candidate bqc floor finds (suc i) block blocks after j h e =
      elim (Bool-cases (ltb floor (suc i))) [
        | inr low ↦ subst Held (ground arith) h
        | inl above ↦ elim (Option-cases block) [
          | inl missing ↦ absurd (ground arith)
          | inr (b, here) ↦
              commit_down-Held candidate bqc floor finds i (candidate i (parent_key b))
                (put (suc i) (record { block = b; qc = bqc.qc }) blocks) after
                (λ d found. parent_of d b (j b here) (finds i (parent_key b) d found))
                (All-put (Rightful p Fact q) blocks (suc i) _ h (inr (j b here))) (ground arith)
        ]
      ]

  -- `CommitAncestorByBlockQC` with a certificate that a quorum stands behind.
  pub commit_ancestor-Held :
      (n m : Node) (bqc : BlockWithQc)
      → Stored p (places n)
      → Certified p Fact q bqc
      → Held n.chain.blocks
      → commit_ancestor_by_block_qc n bqc ≡ some m
      → Held m.chain.blocks
  commit_ancestor-Held n m bqc s c h e = elim (Option-cases (parent n bqc)) [
    | inl missing ↦ unchanged (inr missing)
    | inr (b, found) ↦ elim (ℕ_discrete (length n.chain.blocks) (length n.candidate_chain.blocks)) [
      | yes same ↦ unchanged (inl same)
      | no differ ↦ elim (Option-cases (down n bqc b s.proper differ found)) [
        | inl panics ↦
            absurd (ground (arith, commit_down-none n bqc b s.proper differ found panics))
        | inr (blocks, goes) ↦
            let held : Held blocks =
              commit_down-Held (candidates n) bqc n.chain.height (candidates-Finds n s)
                (previous n bqc) (some b) n.chain.blocks blocks
                (λ d same.
                  parent_of d bqc.block (voted bqc.block c)
                    (candidates-Finds n s (previous n bqc) (parent_key bqc.block) d (found ∙ same)))
                h goes in
            let same : at_parent n bqc b s.proper differ found blocks ≡ m =
              ground (arith, commit_down-some n bqc b s.proper differ found blocks goes) in
            subst (λ (k : Node). Held k.chain.blocks) same held
      ]
    ]
  ]
    where
      unchanged :
          ((length n.chain.blocks ≡ length n.candidate_chain.blocks) ⊎ (parent n bqc ≡ none))
          → Held m.chain.blocks
      unchanged why =
          let same : n ≡ m = ground (arith, commit_same n bqc why) in
          subst (λ (k : Node). Held k.chain.blocks) same h
