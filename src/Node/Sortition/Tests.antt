-- ===== src/Node/Sortition/Tests.antt =====
-- Rounds and seeds of the sample node.
use simple_ft.Base.{ℕ, ◌+◌, ◌≤◌, ◌≡◌, refl, codes, get, u64, [], ◌∷◌, arith, Bool, ◌⊎◌, ℕ_discrete}
use simple_ft.Node.{Node, new_node}
use simple_ft.Node.Sortition.{Results, choose_round, seed_for_sortition}
use simple_ft.Node.Sortition.Laws.{HasQuorum, choose_round-last, seed-injective}
use simple_ft.Node.Sample.{toy, alone}

-- Rounds 0 and 2 have a result, round 1 has none.
abbrev results : Results
results = (0, (codes "n0", Bool.false) ∷ []) ∷ (2, (codes "n0", Bool.false) ∷ []) ∷ (1, []) ∷ []

abbrev waiting : Node
waiting = record (new_node toy alone) { sortition_result = (1, results) ∷ (2, (0, []) ∷ []) ∷ [] }

choose_round-last_example :
    (last : ℕ) × (choose_round waiting 1 ≡ (waiting, u64 (last + 1)))
    × ((last ≡ 0) ⊎ HasQuorum waiting.quorum_num results last)
    × ((r : ℕ) → HasQuorum waiting.quorum_num results r → r ≤ last)
unfolding get ℕ_discrete new_node
choose_round-last_example = choose_round-last waiting 1 results refl

abbrev height : ℕ
height = 3

abbrev round : ℕ
round = 1

seed-injective_example : (height ≡ 3) × (round ≡ 1)
unfolding seed_for_sortition
seed-injective_example =
    seed-injective height 3 round 1 (omega arith) (omega arith) (omega arith) (omega arith) refl
