-- ===== src/Node/Ballots.antt =====
-- What a node has votes and certificates for: every vote that it stores has arrived, and behind
-- every certificate stand votes of a quorum.
pub mod Kept
pub mod Committed
pub mod Steps
use simple_ft.Base.{
  ◌⊎◌, ℕ, ◌≤◌, ◌≡◌, ◌≢◌, refl, GoString, Slice, elems, encode_to_string, Map, IsMap, get, put,
  delete, get-put, put-IsMap, nat_key, string_key, Option-cases, inl, inr, List, [], ◌∷◌, none,
  some, length, All, arith, ite, if_pos, if_neg, ℕ_discrete, bytes_discrete,
}
use simple_ft.Data.{Block, BlockWithQc, VoteWithPartialSig}
use simple_ft.Config.{Config}
use simple_ft.Hashing.{Primitives, hash_key}
use simple_ft.Node.Commit.{parent_key}
use simple_ft.Node.{genesis, Node, find_block}
use simple_ft.Node.Votes.{votes_of, handle_vote_msg, check_if_quorum_votes}
use simple_ft.Node.Votes.Laws.{vote_key, votes_of-handle}
use simple_ft.Node.Tasks.{Task, vote_msg, build_qc, new_block_qc, commit_ancestors}
use simple_ft.Node.Stored.{places, Stored}

-- The votes of senders for a height and a hash, of which a fact holds.
abbrev pub Ballot : (VoteWithPartialSig → Type 0) → ℕ → GoString → GoString → Type 0
Ballot Fact h hash a =
    (v : VoteWithPartialSig) × (v.sender ≡ a) × (v.block_height ≡ h) × (vote_key v ≡ hash) × Fact v

-- Votes of so many senders.
pub record Quorate (Fact : VoteWithPartialSig → Type 0) (q h : ℕ) (hash : GoString) : Type 0 where
  pub senders : Map GoString (Slice ℕ)
  pub once_each : IsMap senders
  pub enough : q ≤ length senders
  pub each : (a : GoString) → get a senders ≢ none → Ballot Fact h hash a

-- Behind a certificate stand votes of a quorum for its block.
abbrev pub Certified : Primitives → (VoteWithPartialSig → Type 0) → ℕ → BlockWithQc → Type 0
Certified p Fact q bqc = Quorate Fact q bqc.height (hash_key p bqc.block)

-- A block that a quorum has voted for, or that is named as the parent, and so on down.
pub data Justified (p : Primitives) (Fact : VoteWithPartialSig → Type 0) (q : ℕ)
    : Block → Type 0 where
  voted : (b : Block) → Quorate Fact q b.height (hash_key p b) → Justified p Fact q b
  parent_of :
      (b c : Block) → Justified p Fact q c → parent_key c ≡ hash_key p b → Justified p Fact q b

-- The first block, or a justified one.
abbrev pub Rightful : Primitives → (VoteWithPartialSig → Type 0) → ℕ → ℕ × BlockWithQc → Type 0
Rightful p Fact q e = (e.1.block ≡ genesis) ⊎ Justified p Fact q e.1.block

module _ (p : Primitives) (Fact : VoteWithPartialSig → Type 0) (conf : Config) (q : ℕ) where
  -- What has to hold of a task that waits.
  abbrev pub TaskBacked : Task → Type 0
  TaskBacked (vote_msg v) = Fact v
  TaskBacked (build_qc h hash) = Quorate Fact q h hash
  TaskBacked (new_block_qc bqc) = Certified p Fact q bqc
  TaskBacked (commit_ancestors bqc) = Certified p Fact q bqc
  TaskBacked _ = Unit

  pub record NodeBacked (n : Node) : Type 0 where
    pub same_config : n.config ≡ conf
    pub same_quorum : n.quorum_num ≡ q
    pub stored : Stored p (places n)
    pub proper : (h : ℕ) (hash : GoString) → IsMap (votes_of n h hash)
    pub arrived :
        (h : ℕ) (hash a : GoString) → get a (votes_of n h hash) ≢ none → Ballot Fact h hash a
    pub certified : All (λ e. Certified p Fact q e.1) n.pending_blocks_qc
    pub committed : All (Rightful p Fact q) n.chain.blocks
