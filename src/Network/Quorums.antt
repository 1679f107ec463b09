-- ===== src/Network/Quorums.antt =====
-- Two quorums of a cluster have an honest node in common.
use simple_ft.Base.{
  ℕ, ◌+◌, ◌≤◌, ◌<◌, ◌≡◌, ◌≢◌, refl, ap, GoString, Map, IsMap, get, key, string_key, Bool, true,
  false, not, List, [], ◌∷◌, none, some, total, total-one, bit, length, Occurs, ite, if_pos, if_neg,
  arith,
}
use simple_ft.Quorum.{quorum_num, faults, quorum_num_bounds}

-- Whether a map has an entry for a key.
abbrev pub has : {V : Type 0} → Map GoString V → GoString → Bool
has m a = elim (get a m) [ none ↦ false | some v ↦ true ]

-- 1 for the same name.
abbrev same_name : GoString → GoString → ℕ
same_name b a = ite (key b a) 1 0

total-le :
    {A : Type 0} (f g : A → ℕ) (xs : List A) → ((x : A) → f x ≤ g x) → total f xs ≤ total g xs
total-le f g [] h = omega arith
total-le f g (x ∷ xs) h = omega (arith, h x, total-le f g xs h)

total-add :
    {A : Type 0} (f g : A → ℕ) (xs : List A) → total (λ x. f x + g x) xs ≡ total f xs + total g xs
total-add f g [] = refl
total-add f g (x ∷ xs) = omega (arith, total-add f g xs)

total-ones : {A : Type 0} (xs : List A) → total (λ x. 1) xs ≡ length xs
total-ones [] = refl
total-ones (x ∷ xs) = omega (arith, total-ones xs)

-- A map has no more entries than there are members of a list with an entry, if all its keys are members.
length-le-total :
    {V : Type 0} (m : Map GoString V) (cluster : List GoString)
    → IsMap m
    → ((a : GoString) → get a m ≢ none → Occurs a cluster)
    → length m ≤ total (λ a. bit (has m a)) cluster
unfolding get
length-le-total [] cluster proper members = omega arith
length-le-total ((b, w) ∷ m) cluster proper members =
    let (k, here) = members b (ground arith) in
    omega (
      arith,
      total-one (same_name b) cluster k b here,
      the_key,
      length-le-total m cluster proper.1 (λ a there. members a (further a there)),
      total-add (same_name b) (λ a. bit (has m a)) cluster,
      total-le (λ a. same_name b a + bit (has m a)) (λ a. bit (has ((b, w) ∷ m) a)) cluster apart,
    )
  where
    the_key : same_name b b ≡ 1
    the_key = if_pos (key b b) refl 1 0

    further : (a : GoString) → get a m ≢ none → get a ((b, w) ∷ m) ≢ none
    further a there = ground arith

    apart : (a : GoString) → same_name b a + bit (has m a) ≤ bit (has ((b, w) ∷ m) a)
    apart a = elim (key b a) [
      | yes e ↦ rw (if_pos {C = ℕ} (key b a) e 1 0) (ground (arith, ap (λ x. get x m) e, proper.0))
      | no e ↦ rw (if_neg {C = ℕ} (key b a) e 1 0) (ground (arith, e))
    ]

-- Of two maps with entries for a quorum of the cluster each, some honest member has an entry in
-- both: otherwise there would be too many nodes.
pub quorums_meet :
    {V : Type 0} (m k : Map GoString V) (cluster : List GoString) (honest : GoString → Bool)
    → 0 < length cluster
    → total (λ a. bit (not (honest a))) cluster ≤ faults (length cluster)
    → IsMap m
    → IsMap k
    → ((a : GoString) → get a m ≢ none → Occurs a cluster)
    → ((a : GoString) → get a k ≢ none → Occurs a cluster)
    → quorum_num (length cluster) ≤ length m
    → quorum_num (length cluster) ≤ length k
    → ((a : GoString) → honest a ≡ true → has m a ≡ true → has k a ≡ true → ⊥)
    → ⊥
quorums_meet m k cluster honest some_node few m_proper k_proper m_in k_in m_quorum k_quorum apart =
    omega (
      arith,
      few,
      m_quorum,
      k_quorum,
      quorum_num_bounds (length cluster) some_node,
      length-le-total m cluster m_proper m_in,
      length-le-total k cluster k_proper k_in,
      total-add (λ a. bit (has m a)) (λ a. bit (has k a)) cluster,
      total-add (λ a. 1) (λ a. bit (not (honest a))) cluster,
      total-ones cluster,
      total-le (λ a. bit (has m a) + bit (has k a)) (λ a. 1 + bit (not (honest a))) cluster
          one_of_them,
    )
  where
    one_of_them : (a : GoString) → bit (has m a) + bit (has k a) ≤ 1 + bit (not (honest a))
    one_of_them a = by_cases (has m a) (has k a) (honest a) (apart a)
      where
        by_cases :
            (x y z : Bool) → (z ≡ true → x ≡ true → y ≡ true → ⊥) → bit x + bit y ≤ 1 + bit (not z)
        by_cases true true true h = absurd (h refl refl refl)
        by_cases true true false h = omega arith
        by_cases true false z h = omega arith
        by_cases false true z h = omega arith
        by_cases false false z h = omega arith
