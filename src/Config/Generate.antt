-- ===== src/Config/Generate.antt =====
-- The tool of config_gen/main.go, which makes a configuration for each node.
pub mod Tables
pub mod Nodes
pub mod Reading
pub mod Written
pub mod Loads
use simple_ft.Base.{
  ◌>>=◌, ℕ, ℤ, pos, ◌+◌, GoString, codes, encode_to_string, Map, get, put, string_key, Bool, true,
  false, ltb, if◌then◌else◌, not, ◌==◌, List, [], ◌∷◌, ◌++◌, map, Option, none, some, length,
}
use simple_ft.Quorum.{num_t}
use simple_ft.Keys.{PriShare, PubPoly, Codecs, encode_ts_partial_key, encode_ts_public_key}
use simple_ft.Config.{Value, text_value, int_value, other_value, Viper, as_int, as_text}

-- A value that the tool sets.
pub data Setting : Type 0 where
  text_setting : GoString → Setting
  int_setting : ℤ → Setting
  bool_setting : Bool → Setting
  table_setting : Map GoString Value → Setting

-- A file, with the calls of `Set` in their order.
pub record File : Type 0 where
  pub path : GoString
  pub settings : Map GoString Setting

-- The loop over the addresses; `none` is a panic, at an address that is no string.
unfoldable pub addresses_loop :
    List (GoString × Value) → Map GoString GoString → Option (Map GoString GoString)
addresses_loop [] m = some m
addresses_loop ((name, text_value s) ∷ rest) m = addresses_loop rest (put name s m)
addresses_loop ((name, int_value z) ∷ rest) m = none
addresses_loop ((name, other_value) ∷ rest) m = none

-- The loop over the ports; `none` is a panic, at a port that is missing or no int.
unfoldable pub ports_loop :
    Map GoString Value → List (GoString × GoString) → Map GoString ℤ → Option (Map GoString ℤ)
ports_loop ports [] m = some m
ports_loop ports ((name, addr) ∷ rest) m = do
  port ← as_int (get name ports)
  ports_loop ports rest (put name port m)

-- The loop that makes the Ed25519 keys, for one half of the keys: `key` gives the key of a name.
unfoldable pub keys_loop :
    (GoString → List ℕ) → List (GoString × GoString) → Map GoString GoString → Map GoString GoString
keys_loop key [] m = m
keys_loop key ((name, addr) ∷ rest) m =
    keys_loop key rest (put name (encode_to_string (key name)) m)

-- `a <= b` on strings, by their bytes.
unfoldable pub string_le : GoString → GoString → Bool
string_le [] b = true
string_le (x ∷ a) [] = false
string_le (x ∷ a) (y ∷ b) =
    let rest = string_le a b in if ltb x y then true else if x == y then rest else false

unfoldable pub insert : GoString → List GoString → List GoString
unfolding string_le
insert a [] = a ∷ []
insert a (b ∷ bs) = let rest = insert a bs in if string_le a b then a ∷ b ∷ bs else b ∷ rest

-- `sort.Strings`
unfoldable pub sort_strings : List GoString → List GoString
unfolding insert
sort_strings [] = []
sort_strings (a ∷ as') = insert a (sort_strings as')

abbrev pub or_empty : Option GoString → GoString
or_empty none = []
or_empty (some s) = s

abbrev pub or_zero : Option ℤ → ℤ
or_zero none = pos 0
or_zero (some z) = z

-- A table of strings, as viper keeps it.
abbrev pub texts : Map GoString GoString → Map GoString Value
texts = map (λ e. (e.0, text_value e.1))

-- What the loops before the writing have made.
pub record Plan : Type 0 where
  pub addresses : Map GoString GoString
  pub ports : Map GoString ℤ
  pub private_keys : Map GoString GoString
  pub public_keys : Map GoString GoString
  pub key : PubPoly

-- The calls of `Set` for a node.
abbrev pub settings_of : Viper → Plan → GoString → List ℕ → List ℕ → Map GoString Setting
settings_of template plan name share_bytes key_bytes =
    (codes "name", text_setting name)
    ∷ (codes "address", text_setting (or_empty (get name plan.addresses)))
    ∷ (codes "expectation", int_setting (template.get_int (codes "expectation")))
    ∷ (codes "p2p_listen_port", int_setting (or_zero (get name plan.ports)))
    ∷ (codes "peers_p2p_port", table_setting (template.get_string_map (codes "peers_p2p_port")))
    ∷ (codes "max_pool", int_setting (template.get_int (codes "max_pool")))
    ∷ (codes "rpc_listen_port", int_setting (template.get_int (codes "rpc_listen_port")))
    ∷ (codes "PrivKeyED", text_setting (or_empty (get name plan.private_keys)))
    ∷ (codes "cluster_pubkeyed", table_setting (texts plan.public_keys))
    ∷ (codes "TSShare", text_setting (encode_to_string share_bytes))
    ∷ (codes "TSPubKey", text_setting (encode_to_string key_bytes))
    ∷ (codes "sortition_enabled", bool_setting (template.get_bool (codes "sortition_enabled")))
    ∷ (codes "log_level", int_setting (template.get_int (codes "log_level")))
    ∷ (codes "can_propose_block", bool_setting (template.get_bool (codes "can_propose_block")))
    ∷ (codes "cluster_ips", table_setting (template.get_string_map (codes "ips")))
    ∷ []

module _ (c : Codecs) (template : Viper) where
  -- One round of the writing loop; `none` is a panic.
  unfoldable pub write_file : Plan → GoString → PriShare → Option File
  write_file plan name share = do
    share_bytes ← encode_ts_partial_key c share
    key_bytes ← encode_ts_public_key c plan.key
    some (record {
      path = name ++ codes ".yaml";
      settings = settings_of template plan name share_bytes key_bytes;
    })

  -- The writing loop, over the names with their shares; a share that is missing is a panic.
  unfoldable pub files_loop : Plan → List GoString → List PriShare → Option (List File)
  files_loop plan [] shares = some []
  files_loop plan (name ∷ names) [] = none
  files_loop plan (name ∷ names) (share ∷ shares) = do
    file ← write_file plan name share
    files ← files_loop plan names shares
    some (file ∷ files)

  -- `main` after the template is read: the files, or `none` for a panic, with which the files
  -- that are written already are left out. `key_pair` gives the private and the public key that
  -- `GenED25519Keys` makes for a name, and `deal` is `GenTSKeys`.
  unfoldable pub generate :
      (GoString → List ℕ × List ℕ) → (ℕ → ℕ → List PriShare × PubPoly) → Option (List File)
  unfolding addresses_loop ports_loop keys_loop sort_strings files_loop num_t
  generate key_pair deal =
      let ips = template.get_string_map (codes "ips") in
      let peer_ports = template.get_string_map (codes "peers_p2p_port") in
      let node_number = length ips in
      let (shares, key) = deal (num_t node_number) node_number in
      do
        addresses ← addresses_loop ips []
        ports ←
            (if not (node_number == length peer_ports)
              then none
              else ports_loop peer_ports addresses [])
        files_loop
            (record {
              addresses = addresses;
              ports = ports;
              private_keys = keys_loop (λ name. (key_pair name).0) addresses [];
              public_keys = keys_loop (λ name. (key_pair name).1) addresses [];
              key = key;
            })
            (sort_strings (map (λ e. e.0) ips)) shares
