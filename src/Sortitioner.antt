-- ===== src/Sortitioner.antt =====
-- The sortition of sortition/sortition_utils.go, and the part of `NewNode` of core/node.go that can
-- fail. The verifiable random function is an argument.
pub mod Inputs
mod Tests
use simple_ft.Base.{
  ℕ, ℤ, pos, ◌+◌, ◌-◌, ◌*◌, ◌^◌, GoString, Slice, digits, Map, get, string_key, Bool, true, false,
  ◌||◌, if◌then◌else◌, List, [], ◌∷◌, Option, none, some, length,
}
use simple_ft.Config.{Config, Floats}
use simple_ft.Hashing.{Primitives}
use simple_ft.Node.{Node, new_node}

pub record Sortitioner : Type 0 where
  pub threshold : ℕ
  pub pub_key : Slice ℕ
  pub priv_key : Slice ℕ

-- `vrf.Prove`: the proof and the output, or an error.
abbrev pub Vrf : Type 0
Vrf = Slice ℕ → Slice ℕ → GoString → Option (List ℕ × List ℕ)

-- `big.Int.SetBytes`: the number that bytes stand for, the highest first, after a number in front.
unfoldable pub set_bytes : ℕ → List ℕ → ℕ
set_bytes n [] = n
set_bytes n (b ∷ bs) = set_bytes (n * 256 + b) bs

-- The constant of 64 digits f.
abbrev pub max_output : ℕ
max_output = 2 ^ 256 - 1

module _ (floats : Floats) where
  -- `NewSortitioner`; `none` is an error. Neither comparison holds of NaN.
  unfoldable pub new_sortitioner : ℕ → Slice ℕ → Slice ℕ → Option Sortitioner
  new_sortitioner threshold pub_key priv_key =
      if floats.below threshold (floats.of_int (pos 0))
        || floats.below (floats.of_int (pos 1)) threshold
      then none
      else some (record { threshold = threshold; pub_key = pub_key; priv_key = priv_key })

  -- `HashRatio`
  unfoldable pub hash_ratio : List ℕ → ℕ
  unfolding set_bytes
  hash_ratio vrf_output =
      floats.big_quotient (8 * (length vrf_output + 1)) (set_bytes 0 vrf_output) max_output

  -- `Once`: whether the node wins, and the proof.
  unfoldable pub once : Vrf → Sortitioner → ℕ → Bool × Slice ℕ
  unfolding hash_ratio
  once prove s num = elim (prove s.pub_key s.priv_key (digits num)) [
    | none ↦ (false, none)
    | some (proof, output) ↦
        if floats.below (hash_ratio output) s.threshold then (true, some proof) else (false, none)
  ]

  -- `NewNode` with its sortitioner; `none` is a panic. A missing public key reads nil.
  unfoldable pub make_node : Primitives → Config → Option (Node × Sortitioner)
  unfolding new_sortitioner
  make_node p conf =
      elim (new_sortitioner conf.probability
        (elim (get conf.name conf.public_key_map) [ none ↦ none | some key ↦ key ])
        conf.private_key) [ none ↦ none | some s ↦ some (new_node p conf, s) ]
