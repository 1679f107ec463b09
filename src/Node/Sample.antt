-- ===== src/Node/Sample.antt =====
-- A cluster of one node over toy primitives, and a run in which it commits a block.
use simple_ft.Hashing.{get_hash, get_hash_as_string, hash_key, sign_ed25519, verify_sign_ed25519}
use simple_ft.Quorum.{quorum_num}
use simple_ft.Node.{find_block, new_node}
use simple_ft.Node.Broadcast.{broadcast_panics, verify_sig_ed25519}
use simple_ft.Node.Candidates.{
  handle_new_block, try_update_candidate_chain, try_extend_candidate_chain,
}
use simple_ft.Node.Votes.{
  prepare_vote, cast_vote, handle_vote_msg, votes_of, check_if_quorum_votes, partial_sigs_loop,
  extract_partial_sigs, create_intact_sig, build_block_with_qc,
}
use simple_ft.Node.Commit.{
  commit_from, commit_loop, commit_ancestor_by_block_qc, try_extend_chain, handle_new_block_qc,
}
use simple_ft.Node.Sortition.{handle_sortition_msg}
use simple_ft.Node.Proposing.{finish_round, propose_round}
use simple_ft.Node.Tasks.{run_task, try_task, step}
use simple_ft.Base.{
  pick, get, put, delete, get_nested, bytes_discrete, encode_to_string, ℕ_discrete, ℕ, pos, zero,
  suc, codes, elems, Bool, List, [], ◌∷◌, ◌++◌, Option, none, some, length, leb, if◌then◌else◌,
}
use simple_ft.Data.{Message, proposal, vote, sortition, Block, PlainVote, VoteWithPartialSig}
use simple_ft.Hashing.{Primitives, Encodable, message, plain_vote}
use simple_ft.Equality.{string_eq}
use simple_ft.Config.{Config}
use simple_ft.Node.{genesis}
use simple_ft.Node.Proposing.{Chance}
use simple_ft.Node.Tasks.{System, Event, receive, run, propose, run_all, start}

-- Texts that tell messages of different authors and heights apart.
abbrev pub text_of : Encodable → List ℕ
text_of (message (proposal b)) = 0 ∷ b.height ∷ (b.proposer ++ elems b.previous_hash)
text_of (message (vote v)) = 1 ∷ v.block_height ∷ (v.sender ++ elems v.block_hash)
text_of (message (sortition s)) = 2 ∷ s.height ∷ s.round ∷ s.sortitioner
text_of (plain_vote v) = 3 ∷ v.block_height ∷ elems v.block_hash

-- A signature is the key before the text; a certificate is the number of its parts.
abbrev pub toy : Primitives
toy = record {
  json_encode = λ e. some (text_of e);
  sha256 = λ bytes. bytes;
  ed25519_sign = λ key bytes. some (elems key ++ bytes);
  ed25519_verify = λ key bytes sig. some (string_eq (elems key ++ bytes) (elems sig));
  tbls_sign = λ key bytes. some (key.v ∷ bytes);
  tbls_recover =
      λ key bytes sigs t n. if leb t (length sigs) then some (length sigs ∷ bytes) else none;
}

abbrev pub alone : Config
alone = record {
  name = codes "n0";
  cluster_addr = (codes "n0", codes "h") ∷ [];
  cluster_port = (codes "n0", pos 80) ∷ [];
  public_key_map = (codes "n0", some (7 ∷ [])) ∷ [];
  private_key = some (7 ∷ []);
  ts_public_key = record { base = 5; commits = 6 ∷ [] };
  ts_private_key = record { i = 0; v = 4 };
  max_pool = pos 3;
  listen_port = pos 0;
  p2p_listen_port = pos 80;
  rpc_listen_port = pos 90;
  addr_str = codes "h";
  probability = 1;
  sortition_enabled = Bool.false;
  log_level = pos 3;
  can_propose_block = Bool.true;
}

abbrev pub first : Block
first = record {
  proposer = codes "n0";
  height = 1;
  previous_hash = some (text_of (message (proposal genesis)));
  cmds = some [];
}

abbrev pub ballot : PlainVote
ballot = record {
  block_hash = some (text_of (message (proposal first)));
  block_height = 1;
  opinion = Bool.true;
}

abbrev pub signed_ballot : VoteWithPartialSig
signed_ballot = record {
  plain_vote = ballot;
  sender = codes "n0";
  partial_sig = some (4 ∷ text_of (plain_vote ballot));
}

-- A message with the signature of the node.
abbrev pub signed : Message → Event
signed m = receive m (some (7 ∷ text_of (message m)))

abbrev go : ℕ → Event
go i = run i (λ votes. votes)

-- The rounds of a task after another.
abbrev pub turns : ℕ → List Event → List Event
turns zero rest = rest
turns (suc k) rest = go 0 ∷ turns k rest

abbrev pub lucky : Chance
lucky = record { order = λ m. m; intn = λ n. 0 }

-- The node proposes a block, which it stores and votes for.
abbrev pub votes : List Event
votes = propose lucky (λ seed. Bool.true) ∷ signed (proposal first) ∷ turns 9 []

-- Its vote arrives, and the block is certified and committed.
abbrev pub commits : List Event
commits = signed (vote signed_ballot) ∷ turns 7 []

-- Its vote arrives and is counted.
abbrev pub count : List Event
count = signed (vote signed_ballot) ∷ turns 2 []

abbrev pub or_start : Option System → System
or_start none = start toy alone
or_start (some s) = s

abbrev pub voted : System
voted = or_start (run_all toy (start toy alone) votes)

abbrev pub committed : System
committed = or_start (run_all toy (start toy alone) (votes ++ commits))

abbrev pub counted_vote : System
counted_vote = or_start (run_all toy (start toy alone) (votes ++ count))

-- All that a run of the sample node computes with.
unfoldable pub program : Unit {0}
unfolding get put delete get_nested bytes_discrete encode_to_string ℕ_discrete get_hash
    get_hash_as_string hash_key sign_ed25519 verify_sign_ed25519 quorum_num find_block new_node
    verify_sig_ed25519 broadcast_panics handle_new_block try_update_candidate_chain
    try_extend_candidate_chain prepare_vote cast_vote handle_vote_msg votes_of check_if_quorum_votes
    partial_sigs_loop extract_partial_sigs create_intact_sig build_block_with_qc commit_from
    commit_loop commit_ancestor_by_block_qc try_extend_chain handle_new_block_qc
    handle_sortition_msg finish_round propose_round run_task try_task pick step run_all start
program = tt
