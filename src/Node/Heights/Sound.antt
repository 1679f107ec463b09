-- ===== src/Node/Heights/Sound.antt =====
-- Every step of a node keeps both chains whole.
use simple_ft.Base.{
  All-put, All-delete, refl, ℕ, ◌+◌, ◌≤◌, ◌≡◌, ◌≢◌, GoString, Map, get, put, get-put, nat_key,
  Option-cases, inl, inr, [], ◌∷◌, none, some, arith, ℕ_discrete,
}
use simple_ft.Data.{Block, BlockWithQc}
use simple_ft.Hashing.{Primitives}
use simple_ft.Node.{Node}
use simple_ft.Node.Candidates.{
  handle_new_block, try_update_candidate_chain, try_extend_candidate_chain,
}
use simple_ft.Node.Commit.{commit_ancestor_by_block_qc, try_extend_chain, handle_new_block_qc}
use simple_ft.Base.{length, sym, subst, ◌<◌, ◌⊎◌, if_pos, if_neg, u64, delete, GoString, string_key}
use simple_ft.Hashing.{hash_key}
use simple_ft.Node.{Chain, CandidateChain, store}
use simple_ft.Node.Candidates.{ensure_pending}
use simple_ft.Node.Stored.{Places, places, Home, Stored, Home-allocated}
use simple_ft.Node.Heights.{Unbroken, AtHeight, Waiting, commit-Unbroken, extend-Unbroken}

-- The parts of the state that say what the two chains hold.
pub record Chains : Type 0 where
  pub committed : Chain
  pub waiting : Map ℕ BlockWithQc
  pub candidate : CandidateChain

abbrev pub chains : Node → Chains
chains n = record {
  committed = n.chain;
  waiting = n.pending_blocks_qc;
  candidate = n.candidate_chain;
}

pub record Whole (v : Chains) : Type 0 where
  pub unbroken : Unbroken v.committed
  pub in_order : Waiting v.waiting
  pub candidates_unbroken : (i : ℕ) → i ≤ v.candidate.height → get i v.candidate.blocks ≢ none

-- No height that has a map of blocks has an empty one.
abbrev pub Inhabited : Places → Type 0
Inhabited v = (h r : ℕ) → Home v h r → 0 < length (v.maps r)

length-put-pos : (hash : GoString) (b : Block) (m : Map GoString Block) → 0 < length (put hash b m)
unfolding put
length-put-pos hash b [] = omega arith
length-put-pos hash b ((k, c) ∷ m) = ground arith

module _ (p : Primitives) where
  added_inhabited :
      (v : Places) (r : ℕ) (b : Block)
      → ((h q : ℕ) → Home v h q → r ≢ q → 0 < length (v.maps q))
      → (h q : ℕ) → Home v h q
      → 0 < length (store r (put (hash_key p b) b (v.maps r)) v.maps q)
  added_inhabited v r b old h q home = elim (ℕ_discrete r q) [
    | yes here ↦ rw (if_pos _ here) (length-put-pos (hash_key p b) b (v.maps r))
    | no other ↦ rw (if_neg _ other) (old h q home other)
  ]

  ensured_inhabited :
      (n : Node) (height : ℕ)
      → Stored p (places n)
      → ((h q : ℕ) → Home (places n) h q → 0 < length (n.block_maps q))
      → let (m, r) = ensure_pending p n height in
        (h q : ℕ) → Home (places m) h q → r ≢ q → 0 < length (m.block_maps q)
  unfolding ensure_pending
  ensured_inhabited n height s old = elim (Option-cases (get height n.pending_blocks)) [
    | inr (r, e) ↦ rw (e, ensure_pending) (λ h q home other. old h q home)
    | inl e ↦ rw (e, ensure_pending) fresh
  ]
    where
      fresh :
          (h q : ℕ)
          → ((h ≡ 0) × (q ≡ 0)) ⊎ (get h (put height n.next_map n.pending_blocks) ≡ some q)
          → n.next_map ≢ q
          → 0 < length (store n.next_map [] n.block_maps q)
      fresh h q home other = rw (if_neg _ other) (elim (Home-allocated s height h q home) [
        | inl before ↦ old h q before
        | inr (_, same) ↦ absurd (other (sym same))
      ])

  pub new_block-Inhabited :
      (n : Node) (b : Block)
      → Stored p (places n)
      → Inhabited (places n)
      → Inhabited (places (handle_new_block p n b))
  unfolding handle_new_block
  new_block-Inhabited n b s w =
      added_inhabited (places (ensure_pending p n b.height).0) (ensure_pending p n b.height).1 b
        (ensured_inhabited n b.height s w)

  pub update-Inhabited :
      (n : Node) (b : Block)
      → Inhabited (places n)
      → Inhabited (places (try_update_candidate_chain p n b).0)
  unfolding try_update_candidate_chain
  update-Inhabited n b w = elim (Option-cases (get b.height n.candidate_chain.blocks)) [
    | inl e ↦ rw (e, try_update_candidate_chain) w
    | inr (r, e) ↦
        rw (e, try_update_candidate_chain)
          (added_inhabited (places n) r b (λ h q home other. w h q home))
  ]

  pub extend-Whole : (n : Node) → Whole (chains n) → Whole (chains (try_extend_candidate_chain n).0)
  unfolding try_extend_candidate_chain
  extend-Whole n w = elim (Option-cases (get new n.pending_blocks)) [
    | inl e ↦ rw (e, try_extend_candidate_chain) w
    | inr (r, e) ↦
        rw (e, try_extend_candidate_chain)
          (record {
            unbroken = w.unbroken;
            in_order = w.in_order;
            candidates_unbroken = λ i h. elim (ℕ_discrete new i) [
              | yes here ↦ ground (arith, get-put new i r n.candidate_chain.blocks)
              | no other ↦ ground (
                arith,
                get-put new i r n.candidate_chain.blocks,
                w.candidates_unbroken i (omega arith),
              )
            ];
          })
  ]
    where
      new : ℕ
      new = u64 (n.candidate_chain.height + 1)

  pub register-Whole :
      (n : Node) (bqc : BlockWithQc)
      → Whole (chains n)
      → Whole (chains (handle_new_block_qc n bqc).0)
  unfolding handle_new_block_qc
  register-Whole n bqc w = elim (Option-cases (get bqc.height n.pending_blocks_qc)) [
    | inl e ↦
        rw (e, handle_new_block_qc)
          (record {
            unbroken = w.unbroken;
            in_order = All-put AtHeight n.pending_blocks_qc bqc.height bqc w.in_order refl;
            candidates_unbroken = w.candidates_unbroken;
          })
    | inr (old, e) ↦ rw (e, handle_new_block_qc) w
  ]

  extend_chain-parts :
      (n : Node)
      → ((try_extend_chain n).0.candidate_chain ≡ n.candidate_chain)
        × (((try_extend_chain n).0.pending_blocks_qc ≡ n.pending_blocks_qc)
            ⊎ ((try_extend_chain n).0.pending_blocks_qc
                ≡ delete (u64 (n.chain.height + 1)) n.pending_blocks_qc))
  unfolding try_extend_chain
  extend_chain-parts n = ground arith

  commit-parts :
      (n : Node) (bqc : BlockWithQc) (m : Node)
      → commit_ancestor_by_block_qc n bqc ≡ some m
      → (m.candidate_chain ≡ n.candidate_chain) × (m.pending_blocks_qc ≡ n.pending_blocks_qc)
  unfolding commit_ancestor_by_block_qc
  commit-parts n bqc m e = ground arith

  pub extend_chain-Whole : (n : Node) → Whole (chains n) → Whole (chains (try_extend_chain n).0)
  extend_chain-Whole n w =
      let (same, either) = extend_chain-parts n in
      record {
        unbroken = extend-Unbroken p n w.in_order w.unbroken;
        in_order = elim either [
          | inl e ↦ subst Waiting (sym e) w.in_order
          | inr e ↦ subst Waiting (sym e) (All-delete AtHeight n.pending_blocks_qc _ w.in_order)
        ];
        candidates_unbroken =
            subst (λ (c : CandidateChain). (i : ℕ) → i ≤ c.height → get i c.blocks ≢ none)
              (sym same) w.candidates_unbroken;
      }

  pub commit-Whole :
      (n : Node) (bqc : BlockWithQc) (m : Node)
      → Stored p (places n)
      → commit_ancestor_by_block_qc n bqc ≡ some m
      → Whole (chains n)
      → Whole (chains m)
  commit-Whole n bqc m s e w =
      let (same, waits) = commit-parts n bqc m e in
      record {
        unbroken = commit-Unbroken p n bqc m s e w.unbroken;
        in_order = subst Waiting (sym waits) w.in_order;
        candidates_unbroken =
            subst (λ (c : CandidateChain). (i : ℕ) → i ≤ c.height → get i c.blocks ≢ none)
              (sym same) w.candidates_unbroken;
      }
