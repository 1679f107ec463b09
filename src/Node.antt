-- ===== src/Node.antt =====
-- The state of a node (core/node.go, core/chain.go) and `NewNode`.
pub mod Broadcast
pub mod Votes
pub mod Candidates
pub mod Commit
pub mod Sortition
pub mod Proposing
pub mod Tasks
pub mod Runs
pub mod Counts
pub mod OneVote
pub mod Lock
pub mod Ready
pub mod Ballots
pub mod Heights
pub mod Text
pub mod Sample
mod Tests
pub mod Stored
use simple_ft.Base.{
  ℕ, ◌+◌, GoString, Slice, codes, Map, get, nat_key, string_key, key, Bool, true, false, List, [],
  ◌∷◌, Option, none, some, ite, length, ℕ_discrete,
}
use simple_ft.Config.{Config}
use simple_ft.Data.{RequestWrappedByServer, Block, BlockWithQc}
use simple_ft.Hashing.{Primitives, hash_key}
use simple_ft.Quorum.{quorum_num}

pub record Chain : Type 0 where
  pub blocks : Map ℕ BlockWithQc
  pub height : ℕ

-- The blocks of one height stand in a map of their own, which `pendingBlocks` may hold too: here is
-- its address.
pub record CandidateChain : Type 0 where
  pub blocks : Map ℕ ℕ
  pub height : ℕ

pub record Node : Type 0 where
  pub config : Config
  pub open config use *
  pub node_num : ℕ
  pub quorum_num : ℕ
  -- Whether `lock` is held by a goroutine that has returned.
  pub locked : Bool
  pub chain : Chain
  pub candidate_chain : CandidateChain
  -- A channel with room for one height.
  pub candidate_height_updated : List ℕ
  pub voted : Map ℕ Bool
  pub pending_blocks_qc : Map ℕ BlockWithQc
  -- From a height to the address of the map of its blocks, by their hashes.
  pub pending_blocks : Map ℕ ℕ
  -- From a height to a hash to a sender to the partial signature.
  pub partial_sigs : Map ℕ (Map GoString (Map GoString (Slice ℕ)))
  pub qc_created : Map ℕ Bool
  -- From a height to a round to the nodes that sent a result.
  pub sortition_result : Map ℕ (Map ℕ (Map GoString Bool))
  -- The requests that wait to be packaged.
  pub request_pool : List RequestWrappedByServer
  -- The maps that Go allocates for the blocks of a height, by address, and the next free address.
  pub block_maps : ℕ → Map GoString Block
  pub next_map : ℕ

-- A read `m[k]` of a map to Booleans: a missing key reads false.
abbrev pub flag : ℕ → Map ℕ Bool → Bool
flag k m = elim (get k m) [ none ↦ false | some b ↦ b ]

abbrev pub genesis : Block
genesis = record {
  proposer = codes "CivCrafter";
  height = 0;
  previous_hash = some [];
  cmds = some [];
}

-- A write at one address of the heap of maps.
abbrev pub store : ℕ → Map GoString Block → (ℕ → Map GoString Block) → ℕ → Map GoString Block
store r m heap q = ite (ℕ_discrete r q) m (heap q)

-- `m[height][hash]`, where `m` holds addresses.
unfoldable pub find_block : ℕ → GoString → Map ℕ ℕ → (ℕ → Map GoString Block) → Option Block
find_block height hash m heap = elim (get height m) [ none ↦ none | some r ↦ get hash (heap r) ]

-- `NewNode`
unfoldable pub new_node : Primitives → Config → Node
new_node p conf = record {
  config = conf;
  node_num = length conf.cluster_addr;
  quorum_num = quorum_num (length conf.cluster_addr);
  locked = false;
  chain = record { blocks = (0, record { block = genesis; qc = some [] }) ∷ []; height = 0 };
  candidate_chain = record { blocks = (0, 0) ∷ []; height = 0 };
  candidate_height_updated = 0 ∷ [];
  voted = [];
  pending_blocks_qc = [];
  pending_blocks = [];
  partial_sigs = [];
  qc_created = [];
  sortition_result = [];
  request_pool = [];
  block_maps = λ r. ite (ℕ_discrete r 0) ((hash_key p genesis, genesis) ∷ []) [];
  next_map = 1;
}
