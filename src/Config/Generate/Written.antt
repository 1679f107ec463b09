-- ===== src/Config/Generate/Written.antt =====
-- What the tool has put into a file, and what `LoadConfig` does with it.
use simple_ft.Base.{
  ℕ, ◌≡◌, ◌≢◌, refl, GoString, codes, encode_to_string, decode_string, Map, IsMap, get, string_key,
  bytes_discrete, ℕ_discrete, inl, inr, Option-cases, List, [], ◌∷◌, ◌++◌, map, none, some, All,
  All-mono, arith,
}
use simple_ft.Config.Generate.Reading.{to_lower, Lower, Reads, IsBytes, InBytes, IsTemplate}
use simple_ft.Keys.{
  PriShare, PubPoly, Codecs, encode_ts_partial_key, encode_ts_public_key, decode_ts_partial_key,
  decode_ts_public_key, marshall_ts_partial_key, marshall_ts_public_key,
}
use simple_ft.Config.{
  Floats, Value, Viper, loaded, Cluster, no_cluster, load_cluster, load_config, config_of,
}
use simple_ft.Config.Generate.Nodes.{SameTable}
use simple_ft.Config.Generate.{File, Plan, texts, or_empty, settings_of, write_file}

module _ (c : Codecs) (floats : Floats) where
  pub load_config-loaded :
      (v : Viper) (private_key public_bytes share_bytes : List ℕ) (key : PubPoly) (share : PriShare)
      (cluster : Cluster)
      → decode_string (v.get_string (codes "privkeyed")) ≡ some private_key
      → decode_string (v.get_string (codes "tspubkey")) ≡ some public_bytes
      → decode_ts_public_key c public_bytes ≡ some key
      → decode_string (v.get_string (codes "tsshare")) ≡ some share_bytes
      → decode_ts_partial_key c share_bytes ≡ some share
      → load_cluster
          (v.get_string_map (codes "peers_p2p_port"))
          (v.get_string_map (codes "cluster_ips"))
          (v.get_string_map (codes "cluster_pubkeyed"))
          no_cluster
        ≡ loaded cluster
      → load_config floats c (some v) ≡ loaded (config_of floats v private_key key share cluster)
  unfolding load_config
  load_config-loaded v private_key public_bytes share_bytes key share cluster e1 e2 e3 e4 e5 e6 =
      rw (e1, e2, e3, e4, e5, e6) refl

  pub encoded_IsBytes :
      (key_pair : GoString → List ℕ × List ℕ) (share : PriShare) (bytes : List ℕ)
      → InBytes c key_pair
      → encode_ts_partial_key c share ≡ some bytes
      → IsBytes bytes
  unfolding encode_ts_partial_key
  encoded_IsBytes key_pair share bytes w e = elim (Option-cases (marshall_ts_partial_key c share)) [
    | inl fails ↦ absurd (ground arith)
    | inr (m, made) ↦ w.partials m bytes (ground arith)
  ]

  pub encoded_public_IsBytes :
      (key_pair : GoString → List ℕ × List ℕ) (key : PubPoly) (bytes : List ℕ)
      → InBytes c key_pair
      → encode_ts_public_key c key ≡ some bytes
      → IsBytes bytes
  unfolding encode_ts_public_key
  encoded_public_IsBytes key_pair key bytes w e =
      elim (Option-cases (marshall_ts_public_key c key)) [
        | inl fails ↦ absurd (ground arith)
        | inr (m, made) ↦ w.publics m bytes (ground arith)
      ]

-- What `write_file` has put into a file.
pub written :
    (c : Codecs) (template : Viper) (plan : Plan) (name : GoString) (share : PriShare) (file : File)
    → write_file c template plan name share ≡ some file
    → (share_bytes key_bytes : List ℕ) × (encode_ts_partial_key c share ≡ some share_bytes)
      × (encode_ts_public_key c plan.key ≡ some key_bytes)
      × (file.path ≡ name ++ codes ".yaml")
      × (file.settings ≡ settings_of template plan name share_bytes key_bytes)
unfolding write_file
written c template plan name share file e = elim (Option-cases (encode_ts_partial_key c share)) [
  | inl fails ↦ absurd (ground arith)
  | inr (share_bytes, made) ↦ elim (Option-cases (encode_ts_public_key c plan.key)) [
    | inl fails ↦ absurd (ground arith)
    | inr (key_bytes, key_made) ↦
        let same : some (record {
          path = name ++ codes ".yaml";
          settings = settings_of template plan name share_bytes key_bytes;
        })
            ≡ some file =
          ground arith in
        (share_bytes, key_bytes, made, key_made, ground (arith, same), ground (arith, same))
  ]
]

-- The settings that are read back, at the keys that `LoadConfig` asks for.
pub record AsWritten (template : Viper) (plan : Plan) (name : GoString)
    (share_bytes key_bytes : List ℕ) (v : Viper) : Type 0 where
  pub named : v.get_string (codes "name") ≡ name
  pub private_key : v.get_string (codes "privkeyed") ≡ or_empty (get name plan.private_keys)
  pub share : v.get_string (codes "tsshare") ≡ encode_to_string share_bytes
  pub key : v.get_string (codes "tspubkey") ≡ encode_to_string key_bytes
  pub pool : v.get_int (codes "max_pool") ≡ template.get_int (codes "max_pool")
  pub expectation : v.get_int (codes "expectation") ≡ template.get_int (codes "expectation")
  pub rpc_port : v.get_int (codes "rpc_listen_port") ≡ template.get_int (codes "rpc_listen_port")
  pub proposes :
      v.get_bool (codes "can_propose_block") ≡ template.get_bool (codes "can_propose_block")
  pub ports :
      SameTable
        (template.get_string_map (codes "peers_p2p_port"))
        (v.get_string_map (codes "peers_p2p_port"))
  pub ips :
      SameTable (template.get_string_map (codes "ips")) (v.get_string_map (codes "cluster_ips"))
  pub keys : SameTable (texts plan.public_keys) (v.get_string_map (codes "cluster_pubkeyed"))

pub Reads-AsWritten :
    (template : Viper) (plan : Plan) (name : GoString) (share_bytes key_bytes : List ℕ) (v : Viper)
    → Reads (settings_of template plan name share_bytes key_bytes) v
    → IsTemplate template
    → IsMap (texts plan.public_keys)
    → Lower (texts plan.public_keys)
    → AsWritten template plan name share_bytes key_bytes v
unfolding to_lower get bytes_discrete ℕ_discrete
Reads-AsWritten template plan name share_bytes key_bytes v r t p q = record {
  named = r.strings (codes "name") name refl;
  private_key = r.strings (codes "PrivKeyED") (or_empty (get name plan.private_keys)) refl;
  share = r.strings (codes "TSShare") (encode_to_string share_bytes) refl;
  key = r.strings (codes "TSPubKey") (encode_to_string key_bytes) refl;
  pool = r.ints (codes "max_pool") (template.get_int (codes "max_pool")) refl;
  expectation = r.ints (codes "expectation") (template.get_int (codes "expectation")) refl;
  rpc_port = r.ints (codes "rpc_listen_port") (template.get_int (codes "rpc_listen_port")) refl;
  proposes =
      r.bools (codes "can_propose_block") (template.get_bool (codes "can_propose_block")) refl;
  ports =
      r.tables (codes "peers_p2p_port") (template.get_string_map (codes "peers_p2p_port")) refl
        t.ports_proper t.ports_lower;
  ips =
      r.tables (codes "cluster_ips") (template.get_string_map (codes "ips")) refl t.ips_proper
        t.ips_lower;
  keys = r.tables (codes "cluster_pubkeyed") (texts plan.public_keys) refl p q;
}

-- The names of a map are found in it.
pub names-get : (m : Map GoString Value) → All (λ a. get a m ≢ none) (map (λ e. e.0) m)
unfolding get
names-get [] = tt
names-get ((name, v) ∷ m) = (
  ground arith,
  All-mono (λ a. get a m ≢ none) (λ a. get a ((name, v) ∷ m) ≢ none) (λ a h. ground arith)
      (map (λ e. e.0) m) (names-get m),
)
