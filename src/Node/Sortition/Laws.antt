-- ===== src/Node/Sortition/Laws.antt =====
-- Rounds and seeds.
use simple_ft.Base.{
  ℕ, ◌+◌, ◌^◌, ◌≤◌, ◌<◌, ◌≡◌, refl, get, nat_key, [], ◌∷◌, some, arith, length, inl, inr, ◌⊎◌, u64,
}
use simple_ft.Node.{Node}
use simple_ft.Node.Sortition.{Results, max_round_loop, choose_round, seed_for_sortition}

-- A round of the results that has a quorum of them.
abbrev pub HasQuorum : ℕ → Results → ℕ → Type 0
HasQuorum quorum [] r = ⊥
HasQuorum quorum ((round, results) ∷ rest) r =
    ((r ≡ round) × (quorum ≤ length results)) ⊎ HasQuorum quorum rest r

max_round-ge : (q m : ℕ) (s : Results) → m ≤ max_round_loop q m s
unfolding max_round_loop
max_round-ge q m [] = omega arith
max_round-ge q m ((round, results) ∷ rest) =
    ground (arith, max_round-ge q m rest, max_round-ge q round rest)

max_round-bound : (q m : ℕ) (s : Results) (r : ℕ) → HasQuorum q s r → r ≤ max_round_loop q m s
unfolding max_round_loop
max_round-bound q m [] r h = absurd h
max_round-bound q m ((round, results) ∷ rest) r (inl (e, h)) =
    ground (arith, max_round-ge q m rest, max_round-ge q round rest)
max_round-bound q m ((round, results) ∷ rest) r (inr h) =
    ground (arith, max_round-bound q m rest r h, max_round-bound q round rest r h)

max_round-HasQuorum :
    (q m : ℕ) (s : Results) → (max_round_loop q m s ≡ m) ⊎ HasQuorum q s (max_round_loop q m s)
unfolding max_round_loop
max_round-HasQuorum q m [] = inl refl
max_round-HasQuorum q m ((round, results) ∷ rest) =
    ground (arith, max_round-HasQuorum q m rest, max_round-HasQuorum q round rest)

-- For a height with results, whatever the order in which the range statement goes through its
-- rounds: the round that is chosen comes one (in uint64) after a round that is the last with a
-- quorum of results, or after round 0 if no later round has one.
pub choose_round-last :
    (n : Node) (h : ℕ) (s : Results)
    → get h n.sortition_result ≡ some s
    → (last : ℕ) × (choose_round n h ≡ (n, u64 (last + 1)))
      × ((last ≡ 0) ⊎ HasQuorum n.quorum_num s last)
      × ((r : ℕ) → HasQuorum n.quorum_num s r → r ≤ last)
unfolding choose_round
choose_round-last n h s e = (
  max_round_loop n.quorum_num 0 s,
  ground arith,
  max_round-HasQuorum n.quorum_num 0 s,
  max_round-bound n.quorum_num 0 s,
)

-- Below height 2^44 and round 2^20, different heights or rounds have different seeds.
pub seed-injective :
    (h k r t : ℕ)
    → h < 2 ^ 44
    → k < 2 ^ 44
    → r < 2 ^ 20
    → t < 2 ^ 20
    → seed_for_sortition h r ≡ seed_for_sortition k t
    → (h ≡ k) × (r ≡ t)
unfolding seed_for_sortition
seed-injective h k r t a b c d e = omega arith
