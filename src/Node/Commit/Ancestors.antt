-- ===== src/Node/Commit/Ancestors.antt =====
-- `CommitAncestorByBlockQC` commits the ancestors of the certified block.
use simple_ft.Base.{
  ℕ, zero, suc, ◌≤◌, ◌<◌, ◌≡◌, refl, sym, ap, GoString, Map, get, put, get-put, nat_key, string_key,
  inl, inr, ◌⊎◌, Bool-cases, Option-cases, Option, none, some, arith, ltb, ℕ_discrete, dec_lt,
}
use simple_ft.Data.{Block, BlockWithQc}
use simple_ft.Node.{Node, find_block}
use simple_ft.Node.Commit.{parent_key, commit_down}

abbrev pub Candidates : Type 0
Candidates = ℕ → GoString → Option Block

-- From the block `b` at height `i`, the parents lead to the block `c` at height `k`.
abbrev pub Ancestor : Candidates → ℕ → Block → ℕ → Block → Type 0
Ancestor candidate zero b k c = (k ≡ 0) × (b ≡ c)
Ancestor candidate (suc i) b k c =
    ((k ≡ suc i) × (b ≡ c))
    ⊎ ((d : Block) × (candidate i (parent_key b) ≡ some d) × Ancestor candidate i d k c)

module _ (candidate : Candidates) (bqc : BlockWithQc) (floor : ℕ) where
  -- `c` with the certificate of the block above.
  abbrev pub certified : Block → BlockWithQc
  certified c = record { block = c; qc = bqc.qc }

  -- What the loop leaves at height `k`, from block `b` at height `i` down.
  abbrev pub Committed : ℕ → Block → Map ℕ BlockWithQc → Map ℕ BlockWithQc → ℕ → Type 0
  Committed i b blocks after k =
      ((floor < k)
        × (k ≤ i)
        × ((c : Block) × Ancestor candidate i b k c × (get k after ≡ some (certified c))))
      ⊎ (((k ≤ floor) ⊎ (i < k)) × (get k after ≡ get k blocks))

  pub commit_down_halts :
      (i : ℕ) (block : Option Block) (blocks : Map ℕ BlockWithQc)
      → i ≤ floor
      → commit_down candidate bqc floor i block blocks ≡ some blocks
  unfolding commit_down
  commit_down_halts zero block blocks h = refl
  commit_down_halts (suc i) block blocks h = ground arith

  stays :
      (i : ℕ) (block : Option Block) (blocks after : Map ℕ BlockWithQc)
      → i ≤ floor
      → commit_down candidate bqc floor i block blocks ≡ some after
      → after ≡ blocks
  unfolding commit_down
  stays zero block blocks after h e = ground arith
  stays (suc i) block blocks after h e = ground arith

  no_block :
      (i : ℕ) (blocks after : Map ℕ BlockWithQc)
      → commit_down candidate bqc floor i none blocks ≡ some after
      → i ≤ floor
  unfolding commit_down
  no_block zero blocks after e = omega arith
  no_block (suc i) blocks after e = ground arith

  -- Where the rounds below height `suc i` leave alone what this one wrote.
  on_top :
      (i : ℕ) (b : Block) (blocks after : Map ℕ BlockWithQc) (k : ℕ)
      → floor < suc i
      → (k ≤ floor) ⊎ (i < k)
      → get k after ≡ get k (put (suc i) (certified b) blocks)
      → Committed (suc i) b blocks after k
  on_top i b blocks after k above out e = elim (ℕ_discrete (suc i) k) [
    | yes here ↦ inl (
      omega arith,
      omega arith,
      (b, inl (sym here, refl), ground (arith, get-put (suc i) k (certified b) blocks)),
    )
    | no other ↦ inr (ground arith, ground (arith, get-put (suc i) k (certified b) blocks))
  ]

  untouched :
      (i : ℕ) (b : Block) (blocks after : Map ℕ BlockWithQc) (k : ℕ)
      → i ≤ floor
      → after ≡ blocks
      → Committed i b blocks after k
  untouched i b blocks after k h e = elim (dec_lt floor k) [
    | yes out ↦ inr (inr (omega arith), ap (get k) e)
    | no out ↦ inr (inl (omega arith), ap (get k) e)
  ]

  pub commit_down-Committed :
      (i : ℕ) (b : Block) (blocks after : Map ℕ BlockWithQc)
      → commit_down candidate bqc floor i (some b) blocks ≡ some after
      → (k : ℕ) → Committed i b blocks after k
  unfolding commit_down
  commit_down-Committed zero b blocks after e k =
      untouched 0 b blocks after k (omega arith) (ground arith)
  commit_down-Committed (suc i) b blocks after e k = elim (Bool-cases (ltb floor (suc i))) [
    | inr below ↦ untouched (suc i) b blocks after k (ground arith) (ground arith)
    | inl above ↦ elim (Option-cases (candidate i (parent_key b))) [
      | inl missing ↦ last (ground arith) (ground arith)
      | inr (d, found) ↦
          deeper (ground arith) d found
            (commit_down-Committed i d (put (suc i) (certified b) blocks) after (ground arith) k)
    ]
  ]
    where
      last :
          floor < suc i
          → commit_down candidate bqc floor i none (put (suc i) (certified b) blocks) ≡ some after
          → Committed (suc i) b blocks after k
      last high down =
          let low = no_block i _ after down in
          on_top i b blocks after k high
            (elim (dec_lt floor k) [ yes q ↦ inr (omega arith) | no q ↦ inl (omega arith) ])
            (ap (get k) (stays i none _ after low down))

      deeper :
          floor < suc i
          → (d : Block) → candidate i (parent_key b) ≡ some d
          → Committed i d (put (suc i) (certified b) blocks) after k
          → Committed (suc i) b blocks after k
      deeper high d found (inl (lo, hi, (c, anc, at))) =
          inl (lo, omega arith, (c, inr (d, found, anc), at))
      deeper high d found (inr (out, same)) = on_top i b blocks after k high out same

-- The node's reading of its candidate chain.
abbrev pub candidates : Node → Candidates
candidates n i hash = find_block i hash n.candidate_chain.blocks n.block_maps
