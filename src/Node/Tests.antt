-- ===== src/Node/Tests.antt =====
-- Runs of the sample node, and the theorems of Node/ at them.
use simple_ft.Base.{
  IsMap, map, GoString, Slice, Map, get, string_key, some, total, bit, arith, ℕ, ◌+◌, ◌≤◌, ◌≡◌,
  refl, [], ◌∷◌, ◌++◌, length, false,
}
use simple_ft.Data.{vote, proposal}
use simple_ft.Hashing.{hash_key}
use simple_ft.Node.{flag}
use simple_ft.Node.OneVote.{vote_at, votes_once}
use simple_ft.Node.Lock.{lock_released}
use simple_ft.Node.Lock.Once.{builds, present}
use simple_ft.Node.Stored.{places, Stored}
use simple_ft.Node.Stored.Steps.{run_all-Stored}
use simple_ft.Node.Heights.{Unbroken}
use simple_ft.Node.Heights.Steps.{chain-Unbroken}
use simple_ft.Node.Ready.Signatures.{Complete, extract_partial_sigs-quorum}
use simple_ft.Node.Votes.{votes_of, extract_partial_sigs}
use simple_ft.Node.Ready.{Ready, builds-Ready}
use simple_ft.Hashing.{hash_key}
use simple_ft.Node.Sample.{
  program, count, counted_vote, toy, alone, first, signed_ballot, votes, commits, voted, committed,
}

voting :
    (voted.sent ≡ proposal first ∷ vote signed_ballot ∷ [])
    × (voted.tasks ≡ [])
    × (voted.node.candidate_height_updated ≡ 1 ∷ [])
unfolding program
voting = (refl, refl, refl)

committing :
    (committed.tasks ≡ [])
    × (committed.node.chain.height ≡ 1)
    × (length committed.node.chain.blocks ≡ 2)
unfolding program
committing = (refl, refl, refl)

votes_once_example : total (vote_at 1) voted.sent ≤ 1
unfolding program
votes_once_example = votes_once toy alone votes voted 1 refl

lock_released_example :
    (committed.node.locked ≡ false)
    × ((h : ℕ)
        → total (builds h) committed.tasks + present h committed.node.pending_blocks_qc
          ≤ bit (flag h committed.node.qc_created))
unfolding program
lock_released_example = lock_released toy alone (votes ++ commits) committed refl

run_all-Stored_example : Stored toy (places committed.node)
unfolding program
run_all-Stored_example = run_all-Stored toy alone (votes ++ commits) committed refl

chain-Unbroken_example : Unbroken committed.node.chain
unfolding program
chain-Unbroken_example = chain-Unbroken toy alone (votes ++ commits) committed refl

builds-Ready_example : Ready counted_vote.node 1 (hash_key toy first)
unfolding program
builds-Ready_example =
    builds-Ready toy alone (votes ++ count) counted_vote 1 (hash_key toy first) refl (omega arith)

in_order : Complete (λ votes. votes)
in_order = record {
  goes_through = λ m proper. refl;
  once = λ m proper. proper;
  in_map = λ m a sig proper found. found;
}

extract_partial_sigs-quorum_example :
    (voters : Map GoString (Slice ℕ)) × IsMap voters
    × (length voters ≡ counted_vote.node.quorum_num)
    × (extract_partial_sigs (λ votes. votes) counted_vote.node 1 (hash_key toy first)
        ≡ map (λ v. v.1) voters)
    × ((a : GoString) (sig : Slice ℕ)
        → get a voters ≡ some sig
        → get a (votes_of counted_vote.node 1 (hash_key toy first)) ≡ some sig)
unfolding program
extract_partial_sigs-quorum_example =
    extract_partial_sigs-quorum toy alone (votes ++ count) counted_vote 1 (hash_key toy first)
      (λ votes. votes) refl (omega arith) in_order
