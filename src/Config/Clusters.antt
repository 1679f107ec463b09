-- ===== src/Config/Clusters.antt =====
-- What the loop of `LoadConfig` makes of maps in which every node of the cluster is found.
use simple_ft.Base.{
  ℕ, ℤ, ◌≡◌, refl, ap, sym, ◌∙◌, bytes_discrete, GoString, decode_string, Map, IsMap, get, put,
  get-put, string_key, List, [], ◌∷◌, none, some, All, arith,
}
use simple_ft.Config.{Value, text_value, int_value, loaded, Cluster, load_cluster}

module _ (ports ips : Map GoString Value) where
  -- The node of a public key has a port and an address, and the key is written in hex.
  pub record Found (e : GoString × Value) : Type 0 where
    pub port : ℤ
    pub address : GoString
    pub text : GoString
    pub bytes : List ℕ
    pub has_port : get e.0 ports ≡ some (int_value port)
    pub has_address : get e.0 ips ≡ some (text_value address)
    pub is_text : e.1 ≡ text_value text
    pub in_hex : decode_string text ≡ some bytes

  -- One read, after the loop over the entries.
  pub record Filled (entries : Map GoString Value) (before after : Cluster) (a : GoString)
      : Type 0 where
    pub others :
        get a entries ≡ none
        → (get a after.ports ≡ get a before.ports)
          × (get a after.addresses ≡ get a before.addresses)
          × (get a after.public_keys ≡ get a before.public_keys)
    pub own :
        (v : Value)
        → get a entries ≡ some v
        → (f : Found (a, v))
        → (get a after.ports ≡ some f.port)
          × (get a after.addresses ≡ some f.address)
          × (get a after.public_keys ≡ some (some f.bytes))

  abbrev with_found : (name : GoString) (value : Value) → Found (name, value) → Cluster → Cluster
  with_found name value f before = record {
    ports = put name f.port before.ports;
    addresses = put name f.address before.addresses;
    public_keys = put name (some f.bytes) before.public_keys;
  }

  one_more :
      (name : GoString) (value : Value) (rest : Map GoString Value) (f : Found (name, value))
      (before after : Cluster) (a : GoString)
      → get name rest ≡ none
      → Filled rest (with_found name value f before) after a
      → Filled ((name, value) ∷ rest) before after a
  unfolding get
  one_more name value rest f before after a absent filled = elim (bytes_discrete name a) [
    | no other ↦ record {
      others = λ e. ground (
        arith,
        filled.others,
        get-put name a f.port before.ports,
        get-put name a f.address before.addresses,
        get-put name a (some f.bytes) before.public_keys,
      );
      own = λ v e g. filled.own v (ground arith) g;
    }
    | yes here ↦ record {
      others = λ e. absurd (ground arith);
      own = λ v e g. ground (
        arith,
        filled.others (ap (λ x. get x rest) (sym here) ∙ absent),
        get-put name a f.port before.ports,
        get-put name a f.address before.addresses,
        get-put name a (some f.bytes) before.public_keys,
      );
    }
  ]

  pub load_cluster-Filled :
      (entries : Map GoString Value) (before : Cluster)
      → IsMap entries
      → All Found entries
      → (after : Cluster) × (load_cluster ports ips entries before ≡ loaded after)
        × ((a : GoString) → Filled entries before after a)
  unfolding load_cluster get
  load_cluster-Filled [] before p h =
      (before, refl, λ a. record { others = λ e. (refl, refl, refl); own = λ v e f. cc })
  load_cluster-Filled ((name, value) ∷ rest) before p (f, h) =
      let next : Cluster = with_found name value f before in
      let (after, done, filled) = load_cluster-Filled rest next p.1 h in
      (after, ground arith, λ a. one_more name value rest f before after a p.0 (filled a))
