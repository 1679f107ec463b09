-- ===== src/Keys/RoundTrip.antt =====
-- Keys that are encoded and decoded again are the same.
use simple_ft.Base.{ℕ, ◌≡◌, refl, true, List, [], ◌∷◌, some, Option-cases, inl, inr, arith}
use simple_ft.Keys.{
  PriShare, PubPoly, TsPartialMarshalled, TsPublicMarshalled, Codecs, encode_ts_partial_key,
  decode_ts_partial_key, equal_ts_partial_key, marshall_commits, un_marshall_commits,
  encode_ts_public_key, decode_ts_public_key,
}

-- The libraries read back what they have written.
pub record Lossless (c : Codecs) : Type 0 where
  pub scalars :
      (v : ℕ) (bytes : List ℕ) → c.scalar_to_bytes v ≡ some bytes → c.scalar_of_bytes bytes ≡ some v
  pub points :
      (k : ℕ) (bytes : List ℕ) → c.point_to_bytes k ≡ some bytes → c.point_of_bytes bytes ≡ some k
  pub partials :
      (m : TsPartialMarshalled) (bytes : List ℕ)
      → c.encode_partial m ≡ some bytes
      → c.decode_partial bytes ≡ some m
  pub publics :
      (m : TsPublicMarshalled) (bytes : List ℕ)
      → c.encode_public m ≡ some bytes
      → c.decode_public bytes ≡ some m

module _ (c : Codecs) (l : Lossless c) where
  un_marshall-marshall_commits :
      (commits : List ℕ) (bytes : List (List ℕ))
      → marshall_commits c commits ≡ some bytes
      → un_marshall_commits c bytes ≡ some commits
  unfolding marshall_commits un_marshall_commits
  un_marshall-marshall_commits [] bytes e = ground arith
  un_marshall-marshall_commits (commit ∷ rest) bytes e =
      elim (Option-cases (c.point_to_bytes commit)) [
        | inl fails ↦ absurd (ground arith)
        | inr (first, made) ↦ elim (Option-cases (marshall_commits c rest)) [
          | inl fails ↦ absurd (ground arith)
          | inr (others, all_made) ↦
              let same : some (first ∷ others) ≡ some bytes = ground arith in
              ground (
                arith,
                same,
                l.points commit first made,
                un_marshall-marshall_commits rest others all_made,
              )
        ]
      ]

  -- Where `EncodeTSPartialKey` gives bytes, `DecodeTSPartialKey` gives the share back, which
  -- `EqualTSPartialKey` accepts as equal to the first, if the libraries read back what they write.
  pub decode-encode_ts_partial_key :
      (s : PriShare) (bytes : List ℕ)
      → encode_ts_partial_key c s ≡ some bytes
      → (t : PriShare) × (decode_ts_partial_key c bytes ≡ some t)
        × (t ≡ s)
        × (equal_ts_partial_key c s t ≡ true)
  unfolding encode_ts_partial_key decode_ts_partial_key equal_ts_partial_key
  decode-encode_ts_partial_key s bytes e = elim (Option-cases (c.scalar_to_bytes s.v)) [
    | inl fails ↦ absurd (ground arith)
    | inr (binary, made) ↦
        let par : TsPartialMarshalled = record { i = s.i; binary = binary } in
        (s, ground (arith, l.scalars s.v binary made, l.partials par bytes), refl, ground arith)
  ]

  -- Where `EncodeTSPublicKey` gives bytes, `DecodeTSPublicKey` gives the key back, if the libraries read
  -- back what they write.
  pub decode-encode_ts_public_key :
      (k : PubPoly) (bytes : List ℕ)
      → encode_ts_public_key c k ≡ some bytes
      → decode_ts_public_key c bytes ≡ some k
  unfolding encode_ts_public_key decode_ts_public_key
  decode-encode_ts_public_key k bytes e = elim (Option-cases (c.point_to_bytes k.base)) [
    | inl fails ↦ absurd (ground arith)
    | inr (base, made) ↦ elim (Option-cases (marshall_commits c k.commits)) [
      | inl fails ↦ absurd (ground arith)
      | inr (commits, all_made) ↦
          let m : TsPublicMarshalled = record { base_bytes = base; commit_bytes = commits } in
          ground (
            arith,
            l.points k.base base made,
            l.publics m bytes,
            un_marshall-marshall_commits k.commits commits all_made,
          )
    ]
  ]
