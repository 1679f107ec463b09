-- ===== src/Keys/Tests.antt =====
-- Keys over toy codecs.
use simple_ft.Base.{
  ℕ, ◌≡◌, refl, true, List, [], ◌∷◌, Option, none, some, Option-cases, inl, inr, arith,
}
use simple_ft.Keys.{
  PriShare, PubPoly, TsPartialMarshalled, TsPublicMarshalled, Codecs, encode_ts_partial_key,
  decode_ts_partial_key, equal_ts_partial_key, encode_ts_public_key, decode_ts_public_key,
}
use simple_ft.Keys.RoundTrip.{Lossless, decode-encode_ts_partial_key, decode-encode_ts_public_key}

-- A number is the list that holds it.
abbrev single : List ℕ → Option ℕ
single (n ∷ []) = some n
single _ = none

-- Lists of one number each, flattened.
abbrev flat : List (List ℕ) → Option (List ℕ)
flat [] = some []
flat ((n ∷ []) ∷ rest) = elim (flat rest) [ none ↦ none | some ns ↦ some (n ∷ ns) ]
flat _ = none

abbrev nested : List ℕ → List (List ℕ)
nested [] = []
nested (n ∷ ns) = (n ∷ []) ∷ nested ns

abbrev partial_of : List ℕ → Option TsPartialMarshalled
partial_of [] = none
partial_of (i ∷ binary) = some (record { i = i; binary = binary })

abbrev pub public_bytes : TsPublicMarshalled → Option (List ℕ)
public_bytes m = elim (single m.base_bytes) [
  | none ↦ none
  | some base ↦ elim (flat m.commit_bytes) [ none ↦ none | some commits ↦ some (base ∷ commits) ]
]

abbrev public_of : List ℕ → Option TsPublicMarshalled
public_of [] = none
public_of (base ∷ commits) = some (record { base_bytes = base ∷ []; commit_bytes = nested commits })

abbrev pub toy_codecs : Codecs
toy_codecs = record {
  scalar_to_bytes = λ v. some (v ∷ []);
  scalar_of_bytes = single;
  point_to_bytes = λ k. some (k ∷ []);
  point_of_bytes = single;
  encode_partial = λ m. some (m.i ∷ m.binary);
  decode_partial = partial_of;
  encode_public = public_bytes;
  decode_public = public_of;
  hash_share = λ s. s.v ∷ [];
  bls_verify = λ key bytes sig. true;
}

single-back : (ns : List ℕ) (n : ℕ) → single ns ≡ some n → ns ≡ n ∷ []
single-back [] n e = cc
single-back (m ∷ []) n e = ground arith
single-back (m ∷ k ∷ ns) n e = cc

nested-flat : (m : List (List ℕ)) (ns : List ℕ) → flat m ≡ some ns → nested ns ≡ m
nested-flat [] ns e = ground arith
nested-flat ([] ∷ rest) ns e = cc
nested-flat ((n ∷ k ∷ more) ∷ rest) ns e = cc
nested-flat ((n ∷ []) ∷ rest) ns e = elim (Option-cases (flat rest)) [
  | inl fails ↦ absurd (ground arith)
  | inr (ks, done) ↦
      let same : some (n ∷ ks) ≡ some ns = ground arith in
      ground (arith, same, nested-flat rest ks done)
]

pub publics_back :
    (m : TsPublicMarshalled) (bytes : List ℕ)
    → public_bytes m ≡ some bytes
    → public_of bytes ≡ some m
publics_back m bytes e = elim (Option-cases (single m.base_bytes)) [
  | inl fails ↦ absurd (ground arith)
  | inr (base, one) ↦ elim (Option-cases (flat m.commit_bytes)) [
    | inl fails ↦ absurd (ground arith)
    | inr (commits, done) ↦
        let same : some (base ∷ commits) ≡ some bytes = ground arith in
        ground
          (arith, same, single-back m.base_bytes base one, nested-flat m.commit_bytes commits done)
  ]
]

pub toy-Lossless : Lossless toy_codecs
toy-Lossless = record {
  scalars = λ v bytes e. ground arith;
  points = λ k bytes e. ground arith;
  partials = λ m bytes e. ground arith;
  publics = publics_back;
}

abbrev share : PriShare
share = record { i = 2; v = 11 }

abbrev poly : PubPoly
poly = record { base = 3; commits = 5 ∷ 6 ∷ 7 ∷ [] }

decode-encode_ts_partial_key_example :
    (t : PriShare) × (decode_ts_partial_key toy_codecs (2 ∷ 11 ∷ []) ≡ some t)
    × (t ≡ share)
    × (equal_ts_partial_key toy_codecs share t ≡ true)
unfolding encode_ts_partial_key
decode-encode_ts_partial_key_example =
    decode-encode_ts_partial_key toy_codecs toy-Lossless share (2 ∷ 11 ∷ []) refl

decode-encode_ts_public_key_example :
    decode_ts_public_key toy_codecs (3 ∷ 5 ∷ 6 ∷ 7 ∷ []) ≡ some poly
unfolding encode_ts_public_key
decode-encode_ts_public_key_example =
    decode-encode_ts_public_key toy_codecs toy-Lossless poly (3 ∷ 5 ∷ 6 ∷ 7 ∷ []) refl
