-- ===== src/Node/Ballots/Kept.antt =====
-- What keeps votes behind the certificates of a node: tasks that store none, and votes that arrive.
use simple_ft.Base.{
  All, ℕ, ◌≡◌, ◌≢◌, sym, subst, ◌∙◌, GoString, Slice, Map, IsMap, get, put, get-put, put-IsMap,
  nat_key, string_key, key, Option-cases, inl, inr, true, none, arith, if_pos, if_neg, ℕ_discrete,
  bytes_discrete,
}
use simple_ft.Data.{Block, BlockWithQc, VoteWithPartialSig}
use simple_ft.Config.{Config}
use simple_ft.Hashing.{Primitives, hash_key}
use simple_ft.Node.{Chain, Node, find_block}
use simple_ft.Node.Votes.{
  value, Order, votes_of, handle_vote_msg, check_if_quorum_votes, build_block_with_qc,
}
use simple_ft.Node.Votes.Laws.{vote_key, votes_of-handle}
use simple_ft.Node.Stored.{places, Stored}
use simple_ft.Node.Ballots.{Rightful, Ballot, Quorate, Certified, NodeBacked}

module _ (p : Primitives) (Fact : VoteWithPartialSig → Type 0) (conf : Config) (q : ℕ) where
  abbrev Backed : Node → Type 0
  Backed = NodeBacked p Fact conf q

  -- What a task keeps that stores no vote and no certificate.
  abbrev pub SameVotes : Node → Node → Type 0
  SameVotes n m =
      (m.config ≡ n.config)
      × (m.quorum_num ≡ n.quorum_num)
      × (m.partial_sigs ≡ n.partial_sigs)
      × (m.pending_blocks_qc ≡ n.pending_blocks_qc)

  -- And the committed chain.
  abbrev pub Untouched : Node → Node → Type 0
  Untouched n m = (m.chain ≡ n.chain) × SameVotes n m

  pub SameVotes-Backed :
      (n m : Node)
      → Backed n
      → Stored p (places m)
      → All (Rightful p Fact q) m.chain.blocks
      → SameVotes n m
      → Backed m
  unfolding votes_of
  SameVotes-Backed n m b s held (e, f, g, h) = record {
    same_config = e ∙ b.same_config;
    same_quorum = f ∙ b.same_quorum;
    stored = s;
    proper = λ k hash. rw g (b.proper k hash);
    arrived = λ k hash a there. b.arrived k hash a (rw⁻¹ g there);
    certified = rw h b.certified;
    committed = held;
  }

  pub Untouched-Backed : (n m : Node) → Backed n → Stored p (places m) → Untouched n m → Backed m
  Untouched-Backed n m b s (k, same) =
      SameVotes-Backed n m b s
        (subst (λ (c : Chain). All (Rightful p Fact q) c.blocks) (sym k) b.committed) same

  pub votes_of-cases :
      (S : Map GoString (Slice ℕ) → Type 0) (n : Node) (v : VoteWithPartialSig) (h : ℕ)
      (hash : GoString)
      → S (votes_of n h hash)
      → (v.block_height ≡ h
          → vote_key v ≡ hash
          → S (put v.sender v.partial_sig (votes_of n h hash)))
      → S (votes_of (handle_vote_msg n v) h hash)
  votes_of-cases S n v h hash old new =
      subst S (sym (votes_of-handle n v h hash)) (elim (ℕ_discrete v.block_height h) [
        | no e ↦ rw (if_neg _ e) old
        | yes e ↦ rw (if_pos _ e) (elim (bytes_discrete (vote_key v) hash) [
          | no f ↦ rw (if_neg _ f) old
          | yes f ↦ rw (if_pos _ f) (new e f)
        ])
      ])

  pub vote-Backed :
      (n : Node) (v : VoteWithPartialSig) → Backed n → Fact v → Backed (handle_vote_msg n v)
  unfolding handle_vote_msg
  vote-Backed n v b fact = record {
    same_config = b.same_config;
    same_quorum = b.same_quorum;
    stored = b.stored;
    proper = λ h hash.
        votes_of-cases IsMap n v h hash (b.proper h hash)
          (λ e f. put-IsMap v.sender v.partial_sig (votes_of n h hash) (b.proper h hash));
    arrived = λ h hash a.
        votes_of-cases (λ m. get a m ≢ none → Ballot Fact h hash a) n v h hash (b.arrived h hash a)
          (λ e f there. elim (key v.sender a) [
            | yes same ↦ (v, same, e, f, fact)
            | no other ↦ b.arrived h hash a (λ missing.
                there (ground (arith, other, get-put v.sender a v.partial_sig (votes_of n h hash))))
          ]);
    certified = b.certified;
    committed = b.committed;
  }

  pub checked-Quorate :
      (n : Node) (h : ℕ) (hash : GoString)
      → Backed n
      → (check_if_quorum_votes n h hash).1 ≡ true
      → Quorate Fact q h hash
  unfolding check_if_quorum_votes
  checked-Quorate n h hash b e = record {
    senders = votes_of n h hash;
    once_each = b.proper h hash;
    enough = ground (arith, b.same_quorum);
    each = b.arrived h hash;
  }

  pub built-Certified :
      (order : Order) (n : Node) (h : ℕ) (hash : GoString) (bqc : BlockWithQc)
      → Backed n
      → build_block_with_qc p order n h hash ≡ value bqc
      → Quorate Fact q h hash
      → Certified p Fact q bqc
  unfolding build_block_with_qc find_block
  built-Certified order n h hash bqc b e quorate = elim (Option-cases (get h n.pending_blocks)) [
    | inl missing ↦ absurd (ground arith)
    | inr (r, at) ↦ elim (Option-cases (get hash (n.block_maps r))) [
      | inl missing ↦ absurd (ground arith)
      | inr (block, there) ↦
          let (high, known) = b.stored.filled h r (inr at) hash block there in
          let same : bqc.block ≡ block = ground arith in
          subst (λ (x : Block). Quorate Fact q x.height (hash_key p x)) (sym same)
            (subst (λ k. Quorate Fact q k (hash_key p block)) (sym high)
              (subst (Quorate Fact q h) known quorate))
    ]
  ]
