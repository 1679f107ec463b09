-- ===== src/Config/Generate/Nodes.antt =====
-- The cluster that a node loads from the tables of its file.
use simple_ft.Base.{
  ℕ, ℤ, ◌<◌, ◌≡◌, refl, ◌∙◌, GoString, encode_to_string, decode_string-encode_to_string, Map, IsMap,
  get, All-of_get, string_key, inl, inr, Option-cases, List, [], none, some, All, arith,
}
use simple_ft.Config.{Value, text_value, int_value, loaded, Cluster, no_cluster, load_cluster}
use simple_ft.Config.Clusters.{Found, load_cluster-Filled}
use simple_ft.Config.Generate.{texts, addresses_loop, ports_loop, keys_loop}
use simple_ft.Config.Generate.Tables.{addresses_loop-get, ports_loop-get, keys_loop-get, get-texts}

-- The map has the same entries, perhaps in another order.
pub record SameTable (m read : Map GoString Value) : Type 0 where
  pub same : (a : GoString) → get a read ≡ get a m
  pub proper : IsMap read

module _ (ips ports : Map GoString Value) (public_key : GoString → List ℕ) where
  -- The cluster has a name of the addresses with its address, its port and its public key, and no
  -- other name.
  abbrev pub Knows : Cluster → GoString → Type 0
  Knows cluster a =
      (get a ips ≡ none
        → (get a cluster.addresses ≡ none)
          × (get a cluster.ports ≡ none)
          × (get a cluster.public_keys ≡ none))
      × ((v : Value)
          → get a ips ≡ some v
          → (s : GoString) × (z : ℤ) × (v ≡ text_value s)
            × (get a ports ≡ some (int_value z))
            × (get a cluster.addresses ≡ some s)
            × (get a cluster.ports ≡ some z)
            × (get a cluster.public_keys ≡ some (some (public_key a))))

  module _ (addresses : Map GoString GoString) (table : Map GoString ℤ)
      (read_ports read_ips read_keys : Map GoString Value) (proper : IsMap ips)
      (in_bytes : (a : GoString) → All (λ b. b < 256) (public_key a))
      (e : addresses_loop ips [] ≡ some addresses) (f : ports_loop ports addresses [] ≡ some table)
      (same_ports : SameTable ports read_ports) (same_ips : SameTable ips read_ips)
      (same_keys : SameTable (texts (keys_loop public_key addresses [])) read_keys) where
    -- What is read for a name of the addresses.
    own :
        (a : GoString) (v : Value)
        → get a ips ≡ some v
        → (s : GoString) × (z : ℤ) × (v ≡ text_value s)
          × (get a ports ≡ some (int_value z))
          × (get a read_keys ≡ some (text_value (encode_to_string (public_key a))))
    unfolding get
    own a v at =
        let (s, text, stored) = (addresses_loop-get ips [] addresses a proper e).1 v at in
        let (z, port) = ports_loop-get ports addresses [] table a s f stored in
        (
          s,
          z,
          text,
          port,
          same_keys.same a
              ∙ ground (
                arith,
                get-texts (keys_loop public_key addresses []) a,
                keys_loop-get public_key addresses [] a,
              ),
        )

    other : (a : GoString) → get a ips ≡ none → get a read_keys ≡ none
    unfolding get
    other a at =
        same_keys.same a
        ∙ ground (
          arith,
          (addresses_loop-get ips [] addresses a proper e).0 at,
          get-texts (keys_loop public_key addresses []) a,
          keys_loop-get public_key addresses [] a,
        )

    found_at :
        (a : GoString) (v : Value) (s : GoString) (z : ℤ)
        → get a ips ≡ some (text_value s)
        → get a ports ≡ some (int_value z)
        → v ≡ text_value (encode_to_string (public_key a))
        → Found read_ports read_ips (a, v)
    found_at a v s z addr port text = record {
      port = z;
      address = s;
      text = encode_to_string (public_key a);
      bytes = public_key a;
      has_port = same_ports.same a ∙ port;
      has_address = same_ips.same a ∙ addr;
      is_text = text;
      in_hex = decode_string-encode_to_string (public_key a) (in_bytes a);
    }

    found : (a : GoString) (v : Value) → get a read_keys ≡ some v → Found read_ports read_ips (a, v)
    found a v at = elim (Option-cases (get a ips)) [
      | inl missing ↦ absurd (ground (arith, other a missing))
      | inr (w, here) ↦
          let (s, z, text, port, stored) = own a w here in
          found_at a v s z (ground arith) port (ground arith)
    ]

    pub load_cluster-Knows :
        (cluster : Cluster) × (load_cluster read_ports read_ips read_keys no_cluster
          ≡ loaded cluster)
        × ((a : GoString) → Knows cluster a)
    unfolding get found_at
    load_cluster-Knows =
        let (cluster, done, filled) =
          load_cluster-Filled read_ports read_ips read_keys no_cluster same_keys.proper
            (All-of_get (Found read_ports read_ips) read_keys same_keys.proper found) in
        (
          cluster,
          done,
          λ a. (
            λ missing. let (p, q, r) = (filled a).others (other a missing) in (q, p, r),
            λ v at.
                let (s, z, text, port, stored) = own a v at in
                let key : Value = text_value (encode_to_string (public_key a)) in
                let (p, q, r) =
                  (filled a).own key stored (found_at a key s z (ground arith) port refl) in
                (s, z, text, port, q, p, r),
          ),
        )
