-- ===== src/Base/Totals.antt =====
-- Sums over lists, and lists without one of their elements.
use Prim.Native.Nat.{ℕ, zero, suc, ◌+◌}
use mathlib.Core.Path.{◌≡◌, refl}
use mathlib.Core.Logic.{inl, inr}
use mathlib.Core.Bool.{Bool, true, false}
use mathlib.Core.List.{List, [], ◌∷◌, ◌++◌}
use mathlib.Core.Option.{Option, none, some}
use native.Mathlib.Omega.{arith}
use simple_ft.Base.Tests.{Option-cases, ◌==◌}

abbrev pub bit : Bool → ℕ
bit true = 1
bit false = 0

module _ {ℓ} {A : Type ℓ} where
  abbrev pub total : (A → ℕ) → List A → ℕ
  total w [] = 0
  total w (x ∷ xs) = w x + total w xs

  pub total-append : (w : A → ℕ) (xs ys : List A) → total w (xs ++ ys) ≡ total w xs + total w ys
  total-append w [] ys = omega arith
  total-append w (x ∷ xs) ys = omega (arith, total-append w xs ys)

  pub total-zero : (xs : List A) → total (λ x. 0) xs ≡ 0
  total-zero [] = refl
  total-zero (x ∷ xs) = omega (arith, total-zero xs)

  -- The element at a place, and the list without it.
  unfoldable pub pick : ℕ → List A → Option (A × List A)
  pick i [] = none
  pick zero (x ∷ xs) = some (x, xs)
  pick (suc i) (x ∷ xs) = elim (pick i xs) [ none ↦ none | some (y, rest) ↦ some (y, x ∷ rest) ]

  pub total-pick :
      (w : A → ℕ) (i : ℕ) (xs : List A) (x : A) (rest : List A)
      → pick i xs ≡ some (x, rest)
      → total w xs ≡ w x + total w rest
  unfolding pick
  total-pick w i [] x rest e = cc
  total-pick w zero (y ∷ xs) x rest e = ground arith
  total-pick w (suc i) (y ∷ xs) x rest e = elim (Option-cases (pick i xs)) [
    | inl missing ↦ ground arith
    | inr ((z, others), found) ↦ ground (arith, total-pick w i xs z others found)
  ]

-- How often a number stands in a list.
abbrev pub occurrences : ℕ → List ℕ → ℕ
occurrences i ns = total (λ n. bit (i == n)) ns
