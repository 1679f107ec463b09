-- ===== src/Node/Votes/Tests.antt =====
-- The votes of the sample node.
use simple_ft.Base.{
  ◌≡◌, put, nat_key, string_key, encode_to_string, elems, ite, GoString, ℕ_discrete, bytes_discrete,
}
use simple_ft.Node.{Node, new_node}
use simple_ft.Node.Votes.{handle_vote_msg, votes_of}
use simple_ft.Node.Votes.Laws.{votes_of-handle}
use simple_ft.Node.Sample.{toy, alone, ballot, signed_ballot}

abbrev key_of_first : GoString
key_of_first = encode_to_string (elems ballot.block_hash)

abbrev counted : Node
counted = handle_vote_msg (new_node toy alone) signed_ballot

votes_of-handle_example :
    votes_of counted 1 key_of_first
    ≡ ite
        (ℕ_discrete 1 1)
        (ite
          (bytes_discrete key_of_first key_of_first)
          (put signed_ballot.sender signed_ballot.partial_sig
            (votes_of (new_node toy alone) 1 key_of_first))
          (votes_of (new_node toy alone) 1 key_of_first))
        (votes_of (new_node toy alone) 1 key_of_first)
votes_of-handle_example = votes_of-handle (new_node toy alone) signed_ballot 1 key_of_first
