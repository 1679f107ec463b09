-- ===== src/Sortitioner/Inputs.antt =====
-- What the random function is given, and what is made of its output.
use simple_ft.Base.{
  Option-cases, Bool-cases, inl, inr, GoString, some, true, ℕ, ◌+◌, ◌*◌, ◌^◌, ◌<◌, ◌≡◌, sym, ap,
  ◌∙◌, digits, value, value-digits, List, [], ◌∷◌, some, length, arith, true,
}
use simple_ft.Node.Sortition.{seed_for_sortition}
use simple_ft.Node.Sortition.Laws.{seed-injective}
use simple_ft.Config.{Floats}
use simple_ft.Sortitioner.{hash_ratio, Sortitioner, Vrf, once}

digits-injective : (m n : ℕ) → digits m ≡ digits n → m ≡ n
digits-injective m n e = sym (value-digits m) ∙ ap (value 0) e ∙ value-digits n

-- A proof comes from `prove`, with the text of the number.
once-proof :
    (floats : Floats) (prove : Vrf) (s : Sortitioner) (num : ℕ) (proof : List ℕ)
    → once floats prove s num ≡ (true, some proof)
    → (output : List ℕ) × (prove s.pub_key s.priv_key (digits num) ≡ some (proof, output))
unfolding once
once-proof floats prove s num proof e =
    elim (Option-cases (prove s.pub_key s.priv_key (digits num))) [
      | inl fails ↦ absurd (ground arith)
      | inr ((found, output), made) ↦
          elim (Bool-cases (floats.below (hash_ratio floats output) s.threshold)) [
            | inl wins ↦ (output, ground (arith, made))
            | inr loses ↦ absurd (ground arith)
          ]
    ]

-- Below height 2^44 and round 2^20, a proof with which a node wins a sortition belongs to one height
-- and one round: if `Once` wins with the same proof at two of them, they are the same. This holds if
-- the random function gives no proof for two texts.
pub once-injective :
    (floats : Floats) (prove : Vrf) (s : Sortitioner) (h k r t : ℕ) (proof : List ℕ)
    → ((text other : GoString) (output more : List ℕ)
        → prove s.pub_key s.priv_key text ≡ some (proof, output)
        → prove s.pub_key s.priv_key other ≡ some (proof, more)
        → text ≡ other)
    → h < 2 ^ 44
    → k < 2 ^ 44
    → r < 2 ^ 20
    → t < 2 ^ 20
    → once floats prove s (seed_for_sortition h r) ≡ (true, some proof)
    → once floats prove s (seed_for_sortition k t) ≡ (true, some proof)
    → (h ≡ k) × (r ≡ t)
once-injective floats prove s h k r t proof unique a b c d e f =
    let (output, made) = once-proof floats prove s _ proof e in
    let (more, again) = once-proof floats prove s _ proof f in
    seed-injective h k r t a b c d (digits-injective _ _ (unique _ _ output more made again))

-- The number that bytes stand for, by the weights of their places: the last byte counts 1, and each
-- byte 256 times as much as the one after it.
abbrev pub big_endian : List ℕ → ℕ
big_endian [] = 0
big_endian (b ∷ bs) = b * 256 ^ length bs + big_endian bs
