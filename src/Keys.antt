-- ===== src/Keys.antt =====
-- The threshold keys of sign/sign_tools.go: how they are made into bytes and read back.
pub mod RoundTrip
pub mod Tests
use simple_ft.Base.{
  ◌>>=◌, ℕ, Bool, ◌&&◌, true, false, List, [], ◌∷◌, Option, none, some, ◌==◌, ite, bytes_discrete,
}

-- `share.PriShare`: the index of a share, and the scalar V, which only kyber looks behind.
pub record PriShare : Type 0 where
  pub i : ℕ
  pub v : ℕ

-- `share.PubPoly` as its method `Info` shows it: the base and the commitments, points of G2.
pub record PubPoly : Type 0 where
  pub base : ℕ
  pub commits : List ℕ

pub record TsPartialMarshalled : Type 0 where
  pub i : ℕ
  pub binary : List ℕ

pub record TsPublicMarshalled : Type 0 where
  pub base_bytes : List ℕ
  pub commit_bytes : List (List ℕ)

-- What the functions call in kyber and in the JSON package. `none` is an error.
pub record Codecs : Type 0 where
  -- `MarshalBinary` and `UnmarshalBinary` of scalars and of points.
  pub scalar_to_bytes : ℕ → Option (List ℕ)
  pub scalar_of_bytes : List ℕ → Option ℕ
  pub point_to_bytes : ℕ → Option (List ℕ)
  pub point_of_bytes : List ℕ → Option ℕ
  -- `encode` and `decode` at the two intermediate types.
  pub encode_partial : TsPartialMarshalled → Option (List ℕ)
  pub decode_partial : List ℕ → Option TsPartialMarshalled
  pub encode_public : TsPublicMarshalled → Option (List ℕ)
  pub decode_public : List ℕ → Option TsPublicMarshalled
  -- `PriShare.Hash`
  pub hash_share : PriShare → List ℕ
  -- `bls.Verify` with the commitment to the secret of a public key.
  pub bls_verify : PubPoly → List ℕ → List ℕ → Bool

module _ (c : Codecs) where
  -- `MarshallTSPartialKey`
  unfoldable pub marshall_ts_partial_key : PriShare → Option TsPartialMarshalled
  marshall_ts_partial_key s = do
    bytes ← c.scalar_to_bytes s.v
    some (record { i = s.i; binary = bytes })

  -- `UnMarshallTSPartialKey`
  unfoldable pub un_marshall_ts_partial_key : TsPartialMarshalled → Option PriShare
  un_marshall_ts_partial_key par = do
    v ← c.scalar_of_bytes par.binary
    some (record { i = par.i; v = v })

  -- `EncodeTSPartialKey`
  unfoldable pub encode_ts_partial_key : PriShare → Option (List ℕ)
  unfolding marshall_ts_partial_key
  encode_ts_partial_key s = do par ← marshall_ts_partial_key s; c.encode_partial par

  -- `DecodeTSPartialKey`
  unfoldable pub decode_ts_partial_key : List ℕ → Option PriShare
  unfolding un_marshall_ts_partial_key
  decode_ts_partial_key bytes = do par ← c.decode_partial bytes; un_marshall_ts_partial_key par

  -- `EqualTSPartialKey`
  unfoldable pub equal_ts_partial_key : PriShare → PriShare → Bool
  equal_ts_partial_key p1 p2 =
      (p1.i == p2.i) && ite (bytes_discrete (c.hash_share p1) (c.hash_share p2)) true false

  -- The loop of `MarshallTSPublicKey` over the commitments.
  unfoldable pub marshall_commits : List ℕ → Option (List (List ℕ))
  marshall_commits [] = some []
  marshall_commits (commit ∷ rest) = do
    bytes ← c.point_to_bytes commit
    others ← marshall_commits rest
    some (bytes ∷ others)

  -- `MarshallTSPublicKey`
  unfoldable pub marshall_ts_public_key : PubPoly → Option TsPublicMarshalled
  unfolding marshall_commits
  marshall_ts_public_key k = do
    base ← c.point_to_bytes k.base
    commits ← marshall_commits k.commits
    some (record { base_bytes = base; commit_bytes = commits })

  -- The loop of `UnMarshallTSPublicKey`.
  unfoldable pub un_marshall_commits : List (List ℕ) → Option (List ℕ)
  un_marshall_commits [] = some []
  un_marshall_commits (bytes ∷ rest) = do
    commit ← c.point_of_bytes bytes
    others ← un_marshall_commits rest
    some (commit ∷ others)

  -- `UnMarshallTSPublicKey`
  unfoldable pub un_marshall_ts_public_key : TsPublicMarshalled → Option PubPoly
  unfolding un_marshall_commits
  un_marshall_ts_public_key m = do
    base ← c.point_of_bytes m.base_bytes
    commits ← un_marshall_commits m.commit_bytes
    some (record { base = base; commits = commits })

  -- `EncodeTSPublicKey`
  unfoldable pub encode_ts_public_key : PubPoly → Option (List ℕ)
  unfolding marshall_ts_public_key
  encode_ts_public_key k = do m ← marshall_ts_public_key k; c.encode_public m

  -- `DecodeTSPublicKey`
  unfoldable pub decode_ts_public_key : List ℕ → Option PubPoly
  unfolding un_marshall_ts_public_key
  decode_ts_public_key bytes = do m ← c.decode_public bytes; un_marshall_ts_public_key m

  -- `VerifyTS`: its Boolean; there is an error exactly when it is false.
  unfoldable pub verify_ts : PubPoly → List ℕ → List ℕ → Bool
  verify_ts key bytes intact_sig = c.bls_verify key bytes intact_sig
