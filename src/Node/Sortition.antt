-- ===== src/Node/Sortition.antt =====
-- Sortition results and the rounds of a height: `handleSortitionMsg` and the part of
-- `ProposeBlockLoop` that chooses the round (core/node.go).
pub mod Laws
mod Tests
use simple_ft.Base.{
  ℕ, ◌+◌, ◌*◌, ◌^◌, GoString, Map, get, put, nat_key, string_key, Bool, true, false, List, [], ◌∷◌,
  Option, none, some, length, ltb, leb, ◌&&◌, if◌then◌else◌, u64,
}
use simple_ft.Data.{SortitionMsg}
use simple_ft.Node.{Node}

-- The results of a height, by round and node.
abbrev pub Results : Type 0
Results = Map ℕ (Map GoString Bool)

abbrev pub results_of : {V : Type 0} → Option (List V) → List V
results_of none = []
results_of (some m) = m

-- `handleSortitionMsg`: whatever the message says, the result false is stored.
unfoldable pub handle_sortition_msg : Node → SortitionMsg → Node
handle_sortition_msg n s =
    let rounds = results_of (get s.height n.sortition_result) in
    let nodes = put s.sortitioner false (results_of (get s.round rounds)) in
    record n { sortition_result = put s.height (put s.round nodes rounds) n.sortition_result }

-- The loop over the rounds of a height, in the order of the range statement.
unfoldable pub max_round_loop : ℕ → ℕ → Results → ℕ
max_round_loop quorum_num max_round [] = max_round
max_round_loop quorum_num max_round ((round, results) ∷ rest) =
    max_round_loop quorum_num
      (if leb quorum_num (length results)
        then (if ltb max_round round then round else max_round)
        else max_round)
      rest

-- The round that the node draws for at a height. A height without results gets an empty round 0.
unfoldable pub choose_round : Node → ℕ → Node × ℕ
unfolding max_round_loop
choose_round n next_height = elim (get next_height n.sortition_result) [
  | none ↦ (record n { sortition_result = put next_height ((0, []) ∷ []) n.sortition_result }, 0)
  | some s ↦ (n, u64 (max_round_loop n.quorum_num 0 s + 1))
]

-- `nextHeight<<20 + nextRound`; in Go the shift binds tighter.
unfoldable pub seed_for_sortition : ℕ → ℕ → ℕ
seed_for_sortition next_height next_round = u64 (u64 (next_height * 2 ^ 20) + next_round)
