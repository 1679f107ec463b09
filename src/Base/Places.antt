-- ===== src/Base/Places.antt =====
-- The elements of lists by their places.
use Prim.Native.Nat.{ℕ, zero, suc, ◌+◌, ◌≤◌}
use mathlib.Core.Path.{◌≡◌, refl, ap, subst}
use mathlib.Core.Logic.{◌≢◌, inl, inr}
use mathlib.Core.List.{List, [], ◌∷◌, ◌++◌}
use mathlib.Core.Option.{some}
use native.Mathlib.Omega.{arith}
use simple_ft.Base.Tests.{Option-cases}
use simple_ft.Base.Lists.{get_elem?, All}
use simple_ft.Base.Totals.{total, pick}

-- The element stands somewhere in the list.
abbrev pub Occurs {ℓ} : {A : Type ℓ} → A → List A → Type ℓ
Occurs x xs = (k : ℕ) × (get_elem? xs k ≡ some x)

pub Occurs-append {ℓ} : {A : Type ℓ} (x : A) (xs ys : List A) → Occurs x xs → Occurs x (xs ++ ys)
Occurs-append x [] ys (k, e) = cc
Occurs-append x (y ∷ xs) ys (zero, e) = (zero, e)
Occurs-append x (y ∷ xs) ys (suc k, e) = let (j, f) = Occurs-append x xs ys (k, e) in (suc j, f)

pub All-get_elem {ℓ κ} :
    {A : Type ℓ} (P : A → Type κ) (xs : List A) (i : ℕ) (x : A)
    → All P xs
    → get_elem? xs i ≡ some x
    → P x
All-get_elem P [] i x h e = cc
All-get_elem P (y ∷ xs) zero x h e = subst P (ground arith) h.0
All-get_elem P (y ∷ xs) (suc i) x h e = All-get_elem P xs i x h.1 e

pub All-pick {ℓ κ} :
    {A : Type ℓ} (P : A → Type κ) (i : ℕ) (xs : List A) (x : A) (rest : List A)
    → pick i xs ≡ some (x, rest)
    → All P xs
    → P x × All P rest
unfolding pick
All-pick P i [] x rest e h = cc
All-pick P zero (y ∷ xs) x rest e h = (subst P (ground arith) h.0, subst (All P) (ground arith) h.1)
All-pick P (suc i) (y ∷ xs) x rest e h = elim (Option-cases (pick i xs)) [
  | inl missing ↦ absurd (ground arith)
  | inr ((z, others), found) ↦
      let (here, there) = All-pick P i xs z others found h.1 in
      let same : (z ≡ x) × (y ∷ others ≡ rest) = ground arith in
      (subst P same.0 here, subst (All P) same.1 (h.0, there))
]

pub total-one {ℓ} :
    {A : Type ℓ} (w : A → ℕ) (xs : List A) (k : ℕ) (x : A)
    → get_elem? xs k ≡ some x
    → w x ≤ total w xs
total-one w [] k x e = cc
total-one w (y ∷ xs) zero x e = ground arith
total-one w (y ∷ xs) (suc k) x e = omega (arith, total-one w xs k x e)

-- Two places count twice.
pub total-two {ℓ} :
    {A : Type ℓ} (w : A → ℕ) (xs : List A) (j k : ℕ) (x y : A)
    → get_elem? xs j ≡ some x
    → get_elem? xs k ≡ some y
    → j ≢ k
    → w x + w y ≤ total w xs
total-two w [] j k x y e f h = cc
total-two w (z ∷ xs) zero zero x y e f h = absurd (h refl)
total-two w (z ∷ xs) zero (suc k) x y e f h = ground (arith, total-one w xs k y f)
total-two w (z ∷ xs) (suc j) zero x y e f h = ground (arith, total-one w xs j x e)
total-two w (z ∷ xs) (suc j) (suc k) x y e f h =
    omega (arith, total-two w xs j k x y e f (λ s. h (ap suc s)))
