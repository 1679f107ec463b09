-- ===== src/Node/Commit/Tests.antt =====
-- Commits in a node that has candidates at heights 1 to 3.
use simple_ft.Base.{
  ℕ, zero, suc, ◌<◌, ◌≡◌, refl, codes, Map, IsMap, get, put, nat_key, string_key, GoString, [], ◌∷◌,
  Option, none, some, arith, encode_to_string, bytes_discrete, ℕ_discrete, length,
}
use simple_ft.Data.{Block, BlockWithQc, proposal}
use simple_ft.Hashing.{message, hash_key, get_hash, get_hash_as_string}
use simple_ft.Node.{Node, genesis, find_block, new_node}
use simple_ft.Node.Commit.{commit_down, commit_from, commit_loop, commit_ancestor_by_block_qc}
use simple_ft.Node.Commit.Ancestors.{Committed, candidates}
use simple_ft.Node.Commit.Laws.{commit-Committed, commit_regress}
use simple_ft.Node.Commit.Panics.{Linked, commit_ancestor-Linked}
use simple_ft.Base.{◌↔◌, ◌≢◌}
use simple_ft.Node.Sample.{toy, alone, text_of, first}

abbrev child : ℕ → Block → Block
child height b = record {
  proposer = codes "n0";
  height = height;
  previous_hash = some (text_of (message (proposal b)));
  cmds = some [];
}

abbrev second : Block
second = child 2 first

abbrev third : Block
third = child 3 second

-- The maps of the candidates, each at the address that is its height.
abbrev heap : ℕ → Map GoString Block
heap zero = (encode_to_string (text_of (message (proposal genesis))), genesis) ∷ []
heap (suc zero) = (encode_to_string (text_of (message (proposal first))), first) ∷ []
heap (suc (suc zero)) = (encode_to_string (text_of (message (proposal second))), second) ∷ []
heap (suc (suc (suc zero))) = (encode_to_string (text_of (message (proposal third))), third) ∷ []
heap (suc (suc (suc (suc r)))) = []

heap-IsMap : (r : ℕ) → IsMap (heap r)
unfolding get
heap-IsMap zero = (refl, tt)
heap-IsMap (suc zero) = (refl, tt)
heap-IsMap (suc (suc zero)) = (refl, tt)
heap-IsMap (suc (suc (suc zero))) = (refl, tt)
heap-IsMap (suc (suc (suc (suc r)))) = tt

abbrev with_qc : Block → BlockWithQc
with_qc b = record { block = b; qc = some (9 ∷ []) }

abbrev ahead : Node
ahead = record (new_node toy alone) {
  candidate_chain = record { blocks = (0, 0) ∷ (1, 1) ∷ (2, 2) ∷ (3, 3) ∷ []; height = 3 };
  block_maps = heap;
  next_map = 4;
}

-- The same after blocks 1 and 2 are committed.
abbrev after_second : Node
after_second = record ahead {
  chain = record {
    blocks = (0, with_qc genesis) ∷ (1, with_qc first) ∷ (2, with_qc second) ∷ [];
    height = 2;
  };
}

abbrev or_ahead : Option Node → Node
or_ahead none = ahead
or_ahead (some n) = n

abbrev after_third : Node
after_third = or_ahead (commit_ancestor_by_block_qc ahead (with_qc third))

-- All that a commit computes with.
commits_by : Unit {0}
unfolding get put bytes_discrete encode_to_string ℕ_discrete get_hash get_hash_as_string hash_key
    find_block new_node commit_down commit_from commit_loop commit_ancestor_by_block_qc
commits_by = tt

two_committed : (after_third.chain.height ≡ 2) × (length after_third.chain.blocks ≡ 3)
unfolding commits_by
two_committed = (refl, refl)

commit-Committed_example :
    (after_third.chain.height ≡ 2)
    × ((k : ℕ)
        → Committed
            (candidates ahead)
            (with_qc third)
            0
            2
            second
            ahead.chain.blocks
            after_third.chain.blocks
            k)
unfolding commits_by
commit-Committed_example =
    commit-Committed ahead (with_qc third) second after_third heap-IsMap (ground arith) refl refl

commit_regress_example :
    (m : Node) × (commit_ancestor_by_block_qc after_second (with_qc second) ≡ some m)
    × (m.chain.blocks ≡ after_second.chain.blocks)
    × (m.chain.height < 2)
unfolding commits_by
commit_regress_example =
    commit_regress after_second (with_qc second) first heap-IsMap (ground arith) refl (omega arith)

commit_ancestor-Linked_example :
    (commit_ancestor_by_block_qc ahead (with_qc third) ≢ none)
    ↔ Linked (candidates ahead) 0 2 second
unfolding commits_by
commit_ancestor-Linked_example =
    commit_ancestor-Linked ahead (with_qc third) second heap-IsMap (ground arith) refl

-- A node whose candidate at height 2 has a parent that is no candidate.
abbrev orphaned : Node
orphaned = record ahead {
  candidate_chain = record { blocks = (0, 0) ∷ (1, 4) ∷ (2, 2) ∷ (3, 3) ∷ []; height = 3 };
}

orphan_panics : commit_ancestor_by_block_qc orphaned (with_qc third) ≡ none
unfolding commits_by
orphan_panics = refl

-- A candidate at height 1, one above the chain, whose parent is no candidate.
abbrev rootless : Node
rootless = record ahead {
  candidate_chain = record { blocks = (0, 4) ∷ (1, 1) ∷ (2, 2) ∷ (3, 3) ∷ []; height = 3 };
}

rootless_commits :
    (candidates rootless 0 (encode_to_string (text_of (message (proposal genesis)))) ≡ none)
    × (commit_ancestor_by_block_qc rootless (with_qc second) ≢ none)
unfolding commits_by
rootless_commits = (refl, λ e. cc)
