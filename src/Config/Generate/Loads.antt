-- ===== src/Config/Generate/Loads.antt =====
-- A node that loads the file which the tool made for it has the cluster that the tool was given.
use simple_ft.Base.{
  All-get_elem, ℕ, ℤ, ◌≡◌, ◌≢◌, refl, ap, ◌∙◌, subst, GoString, codes, encode_to_string,
  decode_string, decode_string-encode_to_string, Map, IsMap, get, string_key, inl, inr,
  Option-cases, List, [], ◌++◌, map, get_elem?, none, some, arith, length,
}
use simple_ft.Config.Generate.Reading.{Lower, Reads, InBytes, IsTemplate}
use simple_ft.Config.Generate.Written.{
  load_config-loaded, encoded_IsBytes, encoded_public_IsBytes, written, AsWritten, Reads-AsWritten,
  names-get,
}
use simple_ft.Quorum.{num_t}
use simple_ft.Keys.{PriShare, PubPoly, Codecs, encode_ts_partial_key, encode_ts_public_key}
use simple_ft.Keys.RoundTrip.{Lossless, decode-encode_ts_partial_key, decode-encode_ts_public_key}
use simple_ft.Config.{Config, Floats, Value, Viper, loaded, load_config, config_of}
use simple_ft.Config.Generate.Nodes.{Knows, load_cluster-Knows}
use simple_ft.Config.Generate.{
  File, Plan, texts, addresses_loop, ports_loop, keys_loop, sort_strings, or_empty, files_loop,
  generate,
}
use simple_ft.Config.Generate.Tables.{
  addresses_loop-get, keys_loop-get, keys_loop-IsMap, get-texts, texts-IsMap, sort_strings-All,
  files_loop-get,
}

module _ (c : Codecs) (floats : Floats) (template : Viper) (key_pair : GoString → List ℕ × List ℕ)
    (deal : ℕ → ℕ → List PriShare × PubPoly) where
  abbrev pub ips : Map GoString Value
  ips = template.get_string_map (codes "ips")

  abbrev pub peer_ports : Map GoString Value
  peer_ports = template.get_string_map (codes "peers_p2p_port")

  -- The shares and the public key for the cluster.
  abbrev pub dealt : List PriShare × PubPoly
  dealt = deal (num_t (length ips)) (length ips)

  abbrev plan_of : Map GoString GoString → Map GoString ℤ → Plan
  plan_of addresses table = record {
    addresses = addresses;
    ports = table;
    private_keys = keys_loop (λ name. (key_pair name).0) addresses [];
    public_keys = keys_loop (λ name. (key_pair name).1) addresses [];
    key = dealt.1;
  }

  planned :
      (files : List File)
      → generate c template key_pair deal ≡ some files
      → (addresses : Map GoString GoString) × (table : Map GoString ℤ) × (addresses_loop ips []
          ≡ some addresses)
        × (ports_loop peer_ports addresses [] ≡ some table)
        × (files_loop c template
              (plan_of addresses table)
              (sort_strings (map (λ e. e.0) ips))
              dealt.0
            ≡ some files)
  unfolding generate
  planned files e = elim (Option-cases (addresses_loop ips [])) [
    | inl fails ↦ absurd (ground arith)
    | inr (addresses, made) ↦ elim (Option-cases (ports_loop peer_ports addresses [])) [
      | inl fails ↦ absurd (ground arith)
      | inr (table, ports_made) ↦ (addresses, table, made, ports_made, ground arith)
    ]
  ]

  -- The configuration is that of a node with the name and the share.
  pub record Describes (name : GoString) (share : PriShare) (conf : Config) : Type 0 where
    pub named : conf.name ≡ name
    pub private_key : conf.private_key ≡ some (key_pair name).0
    pub ts_keys : (conf.ts_public_key ≡ dealt.1) × (conf.ts_private_key ≡ share)
    pub max_pool : conf.max_pool ≡ template.get_int (codes "max_pool")
    pub rpc_port : conf.rpc_listen_port ≡ template.get_int (codes "rpc_listen_port")
    pub proposes : conf.can_propose_block ≡ template.get_bool (codes "can_propose_block")
    pub cluster :
        (a : GoString)
        → Knows ips peer_ports
            (λ n. (key_pair n).1)
            (record {
              ports = conf.cluster_port;
              addresses = conf.cluster_addr;
              public_keys = conf.public_key_map;
            })
            a

  module _ (l : Lossless c) (w : InBytes c key_pair) (t : IsTemplate template)
      (addresses : Map GoString GoString) (table : Map GoString ℤ)
      (made : addresses_loop ips [] ≡ some addresses)
      (ports_made : ports_loop peer_ports addresses [] ≡ some table) where
    public_proper : IsMap (texts (plan_of addresses table).public_keys)
    public_proper = texts-IsMap _ (keys_loop-IsMap (λ n. (key_pair n).1) addresses [] tt)

    public-Lower : Lower (texts (plan_of addresses table).public_keys)
    unfolding get
    public-Lower a there = t.ips_lower a (λ missing. ground (
      arith,
      (addresses_loop-get ips [] addresses a t.ips_proper made).0 missing,
      get-texts (plan_of addresses table).public_keys a,
      keys_loop-get (λ n. (key_pair n).1) addresses [] a,
    ))

    private_of :
        (name : GoString)
        → get name ips ≢ none
        → or_empty (get name (plan_of addresses table).private_keys)
          ≡ encode_to_string (key_pair name).0
    unfolding get
    private_of name there = elim (Option-cases (get name ips)) [
      | inl missing ↦ absurd (there missing)
      | inr (v, at) ↦
          let (s, text, stored) =
            (addresses_loop-get ips [] addresses name t.ips_proper made).1 v at in
          ground (arith, keys_loop-get (λ n. (key_pair n).0) addresses [] name)
    ]

    load_written :
        (name : GoString) (share : PriShare) (share_bytes key_bytes : List ℕ) (v : Viper)
        → get name ips ≢ none
        → encode_ts_partial_key c share ≡ some share_bytes
        → encode_ts_public_key c dealt.1 ≡ some key_bytes
        → AsWritten template (plan_of addresses table) name share_bytes key_bytes v
        → (conf : Config) × (load_config floats c (some v) ≡ loaded conf)
          × Describes name share conf
    load_written name share share_bytes key_bytes v there encoded key_encoded r =
        let (cluster, done, knows) =
          load_cluster-Knows ips peer_ports (λ n. (key_pair n).1) addresses table
            (v.get_string_map (codes "peers_p2p_port")) (v.get_string_map (codes "cluster_ips"))
            (v.get_string_map (codes "cluster_pubkeyed")) t.ips_proper w.public_keys made ports_made
            r.ports r.ips r.keys in
        let (share', decoded, same, equal) =
          decode-encode_ts_partial_key c l share share_bytes encoded in
        (
          config_of floats v (key_pair name).0 dealt.1 share cluster,
          load_config-loaded c floats v (key_pair name).0 key_bytes share_bytes dealt.1 share
              cluster
              (ap decode_string (r.private_key ∙ private_of name there)
                ∙ decode_string-encode_to_string (key_pair name).0 (w.private_keys name))
              (ap decode_string r.key
                ∙ decode_string-encode_to_string key_bytes
                    (encoded_public_IsBytes c floats key_pair dealt.1 key_bytes w key_encoded))
              (decode-encode_ts_public_key c l dealt.1 key_bytes key_encoded)
              (ap decode_string r.share
                ∙ decode_string-encode_to_string share_bytes
                    (encoded_IsBytes c floats key_pair share share_bytes w encoded))
              (decoded ∙ ap some same) done,
          record {
            named = r.named;
            private_key = refl;
            ts_keys = (refl, refl);
            max_pool = r.pool;
            rpc_port = r.rpc_port;
            proposes = r.proposes;
            cluster = knows;
          },
        )

  -- If the libraries read back what they write, keys and their encodings are bytes, and the names of the
  -- template are in lower case, as viper gives them: whenever the tool makes files, `LoadConfig` loads
  -- each of them as the configuration of one node: of the name at its place in the sorted names,
  -- with the Ed25519 key made for it, the share at its place and the public threshold key, the size
  -- of the pool, the port for requests and the permission to propose of the template, and a cluster
  -- that has exactly the nodes of the template, with their addresses, ports and public keys.
  pub load_config-generate :
      (files : List File) (i : ℕ) (file : File) (v : Viper)
      → Lossless c
      → InBytes c key_pair
      → IsTemplate template
      → generate c template key_pair deal ≡ some files
      → get_elem? files i ≡ some file
      → Reads file.settings v
      → (name : GoString) × (share : PriShare) × (conf : Config) × (file.path
          ≡ name ++ codes ".yaml")
        × (get_elem? (sort_strings (map (λ e. e.0) ips)) i ≡ some name)
        × (get_elem? dealt.0 i ≡ some share)
        × (load_config floats c (some v) ≡ loaded conf)
        × Describes name share conf
  load_config-generate files i file v l w t e at r =
      let (addresses, table, made, ports_made, wrote) = planned files e in
      let (name, share, here, shared, put_down) =
        files_loop-get c template (plan_of addresses table) (sort_strings (map (λ e. e.0) ips))
          dealt.0 files i file wrote at in
      let (share_bytes, key_bytes, encoded, key_encoded, path, settings) =
        written c template (plan_of addresses table) name share file put_down in
      let there =
        All-get_elem (λ a. get a ips ≢ none) (sort_strings (map (λ e. e.0) ips)) i name
          (sort_strings-All (λ a. get a ips ≢ none) (map (λ e. e.0) ips) (names-get ips)) here in
      let (conf, loads, describes) =
        load_written l w t addresses table made ports_made name share share_bytes key_bytes v there
          encoded key_encoded
          (Reads-AsWritten template (plan_of addresses table) name share_bytes key_bytes v
            (subst (λ s. Reads s v) settings r) t
            (public_proper l w t addresses table made ports_made)
            (public-Lower l w t addresses table made ports_made)) in
      (name, share, conf, path, here, shared, loads, describes)
