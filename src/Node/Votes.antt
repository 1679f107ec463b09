-- ===== src/Node/Votes.antt =====
-- Votes and quorum certificates: `signPlainVote`, `BroadcastVote`, `handleVoteMsg`,
-- `checkIfQuorumVotes`, `extractPartialSigs`, `buildBlockWithQC` of core/node.go and
-- `createIntactSig` of core/block.go.
pub mod Laws
mod Tests
use simple_ft.Base.{
  ℕ, zero, suc, ◌+◌, GoString, Slice, elems, encode_to_string, Map, get, put, get_nested, nat_key,
  string_key, Bool, true, false, not, ◌&&◌, List, [], ◌∷◌, map, Option, none, some, length, take,
  leb, if◌then◌else◌,
}
use simple_ft.Keys.{PubPoly}
use simple_ft.Data.{Block, BlockWithQc, PlainVote, VoteWithPartialSig}
use simple_ft.Hashing.{
  sign_ts_partial, assemble_intact_ts_partial, Primitives, plain_vote, encode, get_hash,
}
use simple_ft.Node.{Node, flag, find_block}

-- How an attempt ends: with a value, with an error that the caller drops, or with a panic.
pub data Attempt (A : Type 0) : Type 0 where
  value : A → Attempt A
  error : Attempt A
  panic : Attempt A

module _ (p : Primitives) where
  -- The vote for a block, by its hash and height.
  abbrev pub vote_for : Block → PlainVote
  vote_for b = record { block_hash = get_hash p b; block_height = b.height; opinion = true }

  -- `SignTSPartial` panics where the signature fails.
  unfoldable pub sign_plain_vote : Node → PlainVote → Attempt VoteWithPartialSig
  sign_plain_vote n v = elim (encode p (plain_vote v)) [
    | none ↦ error
    | some bytes ↦ elim (sign_ts_partial p n.ts_private_key bytes) [
      | none ↦ panic
      | some sig ↦ value (record { plain_vote = v; sender = n.name; partial_sig = some sig })
    ]
  ]

  -- `BroadcastVote` up to the second lock: `none` where the height has a vote already.
  unfoldable pub prepare_vote : Node → Block → Option (Attempt VoteWithPartialSig)
  unfolding sign_plain_vote
  prepare_vote n b = if flag b.height n.voted then none else some (sign_plain_vote n (vote_for b))

-- The rest of `BroadcastVote`: the height is looked up again, and with `true` the vote is sent.
unfoldable pub cast_vote : Node → Block → Node × Bool
cast_vote n b =
    if flag b.height n.voted
    then (n, false)
    else (record n { voted = put b.height true n.voted }, true)

-- The inner map at a key, empty where there is none yet.
abbrev pub inner : {V : Type 0} → Option (Map GoString V) → Map GoString V
inner none = []
inner (some m) = m

-- `handleVoteMsg`, and the string under which it stores the vote.
unfoldable pub handle_vote_msg : Node → VoteWithPartialSig → Node
handle_vote_msg n v =
    let par_sigs = inner (get v.block_height n.partial_sigs) in
    let hash_string = encode_to_string (elems v.block_hash) in
    let senders = put v.sender v.partial_sig (inner (get hash_string par_sigs)) in
    record n { partial_sigs = put v.block_height (put hash_string senders par_sigs) n.partial_sigs }

-- The votes `partialSigs[height][hash]`.
unfoldable pub votes_of : Node → ℕ → GoString → Map GoString (Slice ℕ)
votes_of n height hash = inner (get_nested height hash n.partial_sigs)

-- `checkIfQuorumVotes`: with `true`, `buildBlockWithQC` is started.
unfoldable pub check_if_quorum_votes : Node → ℕ → GoString → Node × Bool
check_if_quorum_votes n height hash = elim (find_block height hash n.pending_blocks n.block_maps) [
  | none ↦ (n, false)
  | some b ↦
      if leb n.quorum_num (length (votes_of n height hash)) && not (flag height n.qc_created)
      then (record n { qc_created = put height true n.qc_created }, true)
      else (n, false)
]

-- The order in which a range statement goes through the votes.
abbrev pub Order : Type 0
Order = Map GoString (Slice ℕ) → List (GoString × Slice ℕ)

-- The loop of `extractPartialSigs`: it counts `num` down and breaks at 0.
unfoldable pub partial_sigs_loop : ℕ → List (GoString × Slice ℕ) → List (Slice ℕ)
partial_sigs_loop num [] = []
partial_sigs_loop zero (vote ∷ rest) = []
partial_sigs_loop (suc num) ((sender, sig) ∷ rest) = sig ∷ partial_sigs_loop num rest

-- `extractPartialSigs`, in the order of the range statement.
unfoldable pub extract_partial_sigs : Order → Node → ℕ → GoString → List (Slice ℕ)
unfolding partial_sigs_loop
extract_partial_sigs order n height hash =
    partial_sigs_loop n.quorum_num (order (votes_of n height hash))

module _ (p : Primitives) where
  -- `AssembleIntactTSPartial` panics where the signature cannot be recovered.
  unfoldable pub create_intact_sig : PlainVote → List (Slice ℕ) → PubPoly → ℕ → ℕ → Attempt (List ℕ)
  create_intact_sig v sigs pub_poly quorum_num node_num = elim (encode p (plain_vote v)) [
    | none ↦ error
    | some bytes ↦ elim (assemble_intact_ts_partial p sigs pub_poly bytes quorum_num node_num) [
      | none ↦ panic
      | some sig ↦ value sig
    ]
  ]

  -- `block.Height` of a nil block panics.
  unfoldable pub build_block_with_qc : Order → Node → ℕ → GoString → Attempt BlockWithQc
  build_block_with_qc order n height hash =
      elim (find_block height hash n.pending_blocks n.block_maps) [
        | none ↦ panic
        | some b ↦
            let sigs = extract_partial_sigs order n height hash in
            elim (create_intact_sig (vote_for p b) sigs n.ts_public_key n.quorum_num n.node_num) [
              | value sig ↦ value (record { block = b; qc = some sig })
              | error ↦ error
              | panic ↦ panic
            ]
      ]
