-- ===== src/Sortitioner/Tests.antt =====
-- Inputs and outputs of the random function.
use simple_ft.Base.{
  ℕ, ◌*◌, ◌+◌, ◌≡◌, refl, ◌/◌, digits, pos, true, ltb, List, [], ◌∷◌, none, some, arith,
}
use simple_ft.Node.Sortition.{seed_for_sortition}
use simple_ft.Config.{Floats}
use simple_ft.Sortitioner.{Sortitioner, Vrf, hash_ratio, set_bytes, once}
use simple_ft.Sortitioner.Inputs.{once-injective}

-- Whole numbers in place of floats, in units of 2^-8.
abbrev units : Floats
units = record {
  of_int = λ z. elim z [ pos n ↦ n * 256 | _ ↦ 0 ];
  quotient = λ a b. 0;
  below = ltb;
  big_quotient = λ q a b. a * 256 / (b + 1);
}

abbrev eight : List ℕ → List ℕ
eight rest = 7 ∷ 0 ∷ 0 ∷ 0 ∷ 0 ∷ 0 ∷ 0 ∷ 255 ∷ rest

abbrev output : List ℕ
output = eight (eight (eight (eight [])))

abbrev drawer : Sortitioner
drawer = record { threshold = 8; pub_key = none; priv_key = none }

-- A ratio of 7/256 wins at a threshold of 8/256.
wins : once units (λ k l text. some (text, output)) drawer 12 ≡ (true, some (digits 12))
unfolding once hash_ratio set_bytes digits
wins = refl

abbrev height : ℕ
height = 3

abbrev round : ℕ
round = 1

abbrev copying : Vrf
copying k l text = some (text, output)

proof_of_seed :
    once units copying drawer (seed_for_sortition 3 1)
    ≡ (true, some (digits (seed_for_sortition 3 1)))
unfolding once hash_ratio set_bytes digits
proof_of_seed = refl

once-injective_example : (height ≡ height) × (round ≡ round)
once-injective_example =
    once-injective units copying drawer height height round round (digits (seed_for_sortition 3 1))
      (λ text other o m e f. cc) (omega arith) (omega arith) (omega arith) (omega arith)
      proof_of_seed proof_of_seed
