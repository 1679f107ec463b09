-- ===== src/Base/Maps.antt =====
-- Go's maps: association lists over keys with a decidable equality.
use Prim.Native.Nat.{◌+◌, ◌≤◌}
use mathlib.Core.Path.{◌≡◌, refl, ap, subst}
use mathlib.Core.Logic.{◌≢◌, ite, if_pos, if_neg}
use mathlib.Core.List.{List, [], ◌∷◌}
use mathlib.Core.Option.{Option, none, some}
use native.Mathlib.Omega.{arith}
use simple_ft.Base.Lists.{length, All}

-- The types that can be keys.
pub record Key {ℓ} (K : Type ℓ) : Type ℓ where
  pub same : Discrete K

abbrev pub key {ℓ} : {K : Type ℓ} ⦃k : Key K⦄ → Discrete K
key ⦃k⦄ = k.same

abbrev pub Map {ℓ} : Type ℓ → Type ℓ → Type ℓ
Map K V = List (K × V)

module _ {ℓ} {K V : Type ℓ} ⦃k : Key K⦄ where
  -- `v, ok := m[a]`
  unfoldable pub get : K → Map K V → Option V
  get a [] = none
  get a ((b, v) ∷ m) = ite (key b a) (some v) (get a m)

  -- `m[a] = v`
  unfoldable pub put : K → V → Map K V → Map K V
  put a v [] = (a, v) ∷ []
  put a v ((b, w) ∷ m) = ite (key b a) ((b, v) ∷ m) ((b, w) ∷ put a v m)

  -- `delete(m, a)`
  unfoldable pub delete : K → Map K V → Map K V
  delete a [] = []
  delete a ((b, w) ∷ m) = ite (key b a) m ((b, w) ∷ delete a m)

  abbrev pub Absent : K → Map K V → Type ℓ
  Absent a m = get a m ≡ none

  -- No key stands twice.
  abbrev pub IsMap : Map K V → Type ℓ
  IsMap [] = Unit
  IsMap ((a, v) ∷ m) = Absent a m × IsMap m

  pub get-put_self : (a : K) (v : V) (m : Map K V) → get a (put a v m) ≡ some v
  unfolding get put
  get-put_self a v [] = ground arith
  get-put_self a v ((b, w) ∷ m) = ground (arith, get-put_self a v m)

  pub get-put_ne : (a b : K) (v : V) (m : Map K V) → a ≢ b → get b (put a v m) ≡ get b m
  unfolding get put
  get-put_ne a b v [] h = ground arith
  get-put_ne a b v ((c, w) ∷ m) h = ground (arith, get-put_ne a b v m)

  pub get-put :
      (a b : K) (v : V) (m : Map K V) → get b (put a v m) ≡ ite (key a b) (some v) (get b m)
  get-put a b v m = elim (key a b) [
    | yes e ↦ rw (if_pos _ e, ← e) (get-put_self a v m)
    | no e ↦ rw (if_neg _ e) (get-put_ne a b v m e)
  ]

  pub put-IsMap : (a : K) (v : V) (m : Map K V) → IsMap m → IsMap (put a v m)
  unfolding put get
  put-IsMap a v [] h = (refl, tt)
  put-IsMap a v ((b, w) ∷ m) h = elim (key b a) [
    | yes e ↦ rw (if_pos _ e) h
    | no e ↦ rw (if_neg _ e) (ground (arith, get-put_ne a b v m), put-IsMap a v m h.1)
  ]

  pub get-delete_ne : (a b : K) (m : Map K V) → a ≢ b → get b (delete a m) ≡ get b m
  unfolding get delete
  get-delete_ne a b [] h = refl
  get-delete_ne a b ((c, w) ∷ m) h = ground (arith, get-delete_ne a b m)

  pub get-delete_self : (a : K) (m : Map K V) → IsMap m → get a (delete a m) ≡ none
  unfolding get delete
  get-delete_self a [] h = refl
  get-delete_self a ((c, w) ∷ m) h = ground (arith, get-delete_self a m)

  pub delete-IsMap : (a : K) (m : Map K V) → IsMap m → IsMap (delete a m)
  unfolding get delete
  delete-IsMap a [] h = tt
  delete-IsMap a ((b, w) ∷ m) h = elim (key b a) [
    | yes e ↦ rw (if_pos _ e) h.1
    | no e ↦ rw (if_neg _ e) (ground (arith, get-delete_ne a b m), delete-IsMap a m h.1)
  ]

  pub length-put_new :
      (a : K) (v : V) (m : Map K V) → get a m ≡ none → length (put a v m) ≡ length m + 1
  unfolding get put
  length-put_new a v [] h = omega arith
  length-put_new a v ((b, w) ∷ m) h = ground (arith, length-put_new a v m)

  pub length-put_old :
      (a : K) (v w : V) (m : Map K V) → get a m ≡ some w → length (put a v m) ≡ length m
  unfolding get put
  length-put_old a v w [] h = cc
  length-put_old a v w ((b, x) ∷ m) h = ground (arith, length-put_old a v w m)

  pub length-put-le : (a : K) (v : V) (m : Map K V) → length (put a v m) ≤ length m + 1
  unfolding put
  length-put-le a v [] = omega arith
  length-put-le a v ((b, w) ∷ m) = ground (arith, length-put-le a v m)

  pub length-le-put : (a : K) (v : V) (m : Map K V) → length m ≤ length (put a v m)
  unfolding put
  length-le-put a v [] = omega arith
  length-le-put a v ((b, w) ∷ m) = ground (arith, length-le-put a v m)

  -- What holds of each entry that a read finds holds of every entry.
  pub All-of_get {κ} :
      (P : K × V → Type κ) (m : Map K V)
      → IsMap m
      → ((a : K) (v : V) → get a m ≡ some v → P (a, v))
      → All P m
  unfolding get
  All-of_get P [] p h = tt
  All-of_get P ((b, w) ∷ m) p h = (
    h b w (ground arith),
    All-of_get P m p.1 (λ a v e. h a v (elim (key b a) [
      | yes here ↦ absurd (ground (arith, ap (λ x. get x m) here))
      | no other ↦ ground arith
    ])),
  )

  -- What holds of every entry holds of one that a read finds.
  pub All-get {κ} :
      (P : K × V → Type κ) (m : Map K V) (a : K) (v : V) → All P m → get a m ≡ some v → P (a, v)
  unfolding get
  All-get P [] a v h e = cc
  All-get P ((b, w) ∷ m) a v h e = elim (key b a) [
    | yes same ↦ subst P (ground (arith, same)) h.0
    | no other ↦ All-get P m a v h.1 (ground (arith, other))
  ]

  pub All-put {κ} :
      (P : K × V → Type κ) (m : Map K V) (a : K) (v : V) → All P m → P (a, v) → All P (put a v m)
  unfolding put
  All-put P [] a v h new = (new, tt)
  All-put P ((b, w) ∷ m) a v h new = elim (key b a) [
    | yes same ↦ rw (if_pos _ same) (rw same new, h.1)
    | no other ↦ rw (if_neg _ other) (h.0, All-put P m a v h.1 new)
  ]

  pub All-delete {κ} : (P : K × V → Type κ) (m : Map K V) (a : K) → All P m → All P (delete a m)
  unfolding delete
  All-delete P [] a h = tt
  All-delete P ((b, w) ∷ m) a h = elim (key b a) [
    | yes same ↦ rw (if_pos _ same) h.1
    | no other ↦ rw (if_neg _ other) (h.0, All-delete P m a h.1)
  ]

-- `v, ok := m[a][b]`: a read of a missing inner map finds nothing.
unfoldable pub get_nested {ℓ} :
    {K L V : Type ℓ} ⦃k : Key K⦄ ⦃l : Key L⦄ → K → L → Map K (Map L V) → Option V
get_nested a b m = elim (get a m) [ none ↦ none | some inner ↦ get b inner ]
