-- ===== src/Data.antt =====
-- The values that nodes exchange: core/rpc_handler.go (requests), core/block.go, core/vote.go,
-- core/msg_type.go and the message of sortition/sortition_utils.go.
use simple_ft.Base.{ℕ, GoString, Slice, Bool, false, [], none, some}

pub record Request : Type 0 where
  pub cmd : Slice ℕ

-- The request, the server that received it and the server's serial number.
pub record RequestWrappedByServer : Type 0 where
  pub request : Request
  pub open request use *
  pub server_name : GoString
  pub sn : ℕ

pub record Reply : Type 0 where
  pub server_name : GoString
  pub sn : ℕ

pub record Block : Type 0 where
  pub proposer : GoString
  pub height : ℕ
  pub previous_hash : Slice ℕ
  pub cmds : Slice RequestWrappedByServer

pub record BlockWithQc : Type 0 where
  pub block : Block
  pub open block use *
  pub qc : Slice ℕ

pub record PlainVote : Type 0 where
  pub block_hash : Slice ℕ
  pub block_height : ℕ
  pub opinion : Bool

pub record VoteWithPartialSig : Type 0 where
  pub plain_vote : PlainVote
  pub open plain_vote use *
  pub sender : GoString
  pub partial_sig : Slice ℕ

pub record SortitionMsg : Type 0 where
  pub sortitioner : GoString
  pub height : ℕ
  pub round : ℕ
  pub result : Bool

-- The types that a message on the wire can have, each with its tag.
pub data Message : Type 0 where
  proposal : Block → Message
  vote : VoteWithPartialSig → Message
  sortition : SortitionMsg → Message

abbrev pub tag : Message → ℕ
tag (proposal b) = 0
tag (vote v) = 1
tag (sortition s) = 2

-- `NewBlock`: a nil list of requests becomes an empty one.
abbrev pub new_block : GoString → ℕ → Slice ℕ → Slice RequestWrappedByServer → Block
new_block proposer height previous_hash none = record {
  proposer = proposer;
  height = height;
  previous_hash = previous_hash;
  cmds = some [];
}
new_block proposer height previous_hash (some requests) = record {
  proposer = proposer;
  height = height;
  previous_hash = previous_hash;
  cmds = some requests;
}

-- `NewSortitionMsg`
abbrev pub new_sortition_msg : GoString → ℕ → ℕ → SortitionMsg
new_sortition_msg node height round = record {
  sortitioner = node;
  height = height;
  round = round;
  result = false;
}
