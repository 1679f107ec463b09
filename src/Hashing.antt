-- ===== src/Hashing.antt =====
-- `encode`, `genMsgHashSum` and the hashes of core/utils.go and core/block.go, and the calls of
-- sign/sign_tools.go, over the primitives that the program takes from elsewhere.
use simple_ft.Base.{◌>>=◌, ℕ, GoString, Slice, elems, Bool, List, Option, some, encode_to_string}
use simple_ft.Keys.{PriShare, PubPoly}
use simple_ft.Data.{Block, PlainVote, Message}

-- What `encode` is given: a message, or the vote that a partial signature signs.
pub data Encodable : Type 0 where
  message : Message → Encodable
  plain_vote : PlainVote → Encodable

-- JSON encoding, SHA-256, Ed25519 and the threshold signatures of kyber. `ed25519.Sign` and
-- `ed25519.Verify` panic on a key of the wrong length, which `none` stands for.
pub record Primitives : Type 0 where
  pub json_encode : Encodable → Option (List ℕ)
  pub sha256 : List ℕ → List ℕ
  pub ed25519_sign : Slice ℕ → List ℕ → Option (List ℕ)
  pub ed25519_verify : Slice ℕ → List ℕ → Slice ℕ → Option Bool
  pub tbls_sign : PriShare → List ℕ → Option (List ℕ)
  pub tbls_recover : PubPoly → List ℕ → List (Slice ℕ) → ℕ → ℕ → Option (List ℕ)

module _ (p : Primitives) where
  abbrev pub encode : Encodable → Option (List ℕ)
  encode = p.json_encode

  -- A write to a hash does not fail.
  abbrev pub gen_msg_hash_sum : List ℕ → Option (List ℕ)
  gen_msg_hash_sum bytes = some (p.sha256 bytes)

  unfoldable pub get_hash : Block → Option (List ℕ)
  get_hash b = do encoded ← encode (message (Message.proposal b)); gen_msg_hash_sum encoded

  unfoldable pub get_hash_as_string : Block → Option GoString
  get_hash_as_string b = do hash ← get_hash b; some (encode_to_string hash)

  -- `hash, _ := b.getHashAsString()`: where there is an error, the string is empty.
  unfoldable pub hash_key : Block → GoString
  hash_key b = elems (get_hash_as_string b)

  -- `SignEd25519` and `VerifySignEd25519` hash their message first; `none` is a panic.
  unfoldable pub sign_ed25519 : Slice ℕ → List ℕ → Option (List ℕ)
  sign_ed25519 private_key bytes = p.ed25519_sign private_key (p.sha256 bytes)

  unfoldable pub verify_sign_ed25519 : Slice ℕ → List ℕ → Slice ℕ → Option Bool
  verify_sign_ed25519 public_key bytes sig = p.ed25519_verify public_key (p.sha256 bytes) sig

  -- `SignTSPartial` and `AssembleIntactTSPartial`; `none` is a panic.
  abbrev pub sign_ts_partial : PriShare → List ℕ → Option (List ℕ)
  sign_ts_partial = p.tbls_sign

  abbrev pub assemble_intact_ts_partial :
      List (Slice ℕ) → PubPoly → List ℕ → ℕ → ℕ → Option (List ℕ)
  assemble_intact_ts_partial partial_sigs pub_poly bytes t n =
      p.tbls_recover pub_poly bytes partial_sigs t n
