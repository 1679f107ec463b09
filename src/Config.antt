-- ===== src/Config.antt =====
-- `Config` and `LoadConfig` of config/config.go. What viper reads of a file is an argument.
pub mod Clusters
pub mod Generate
mod Tests
use simple_ft.Base.{
  ℕ, ℤ, pos, GoString, Slice, codes, decode_string, Map, get, put, string_key, Bool, List, [], ◌∷◌,
  Option, none, some, length,
}
use simple_ft.Keys.{PriShare, PubPoly, Codecs, decode_ts_partial_key, decode_ts_public_key}

pub record Config : Type 0 where
  pub name : GoString
  pub max_pool : ℤ
  pub listen_port : ℤ
  pub p2p_listen_port : ℤ
  pub rpc_listen_port : ℤ
  pub addr_str : GoString
  pub cluster_addr : Map GoString GoString
  pub cluster_port : Map GoString ℤ
  pub public_key_map : Map GoString (Slice ℕ)
  pub private_key : Slice ℕ
  pub ts_public_key : PubPoly
  pub ts_private_key : PriShare
  -- A float64.
  pub probability : ℕ
  pub sortition_enabled : Bool
  pub log_level : ℤ
  pub can_propose_block : Bool

-- The operations on float64 that the program uses. A float64 is given by its bits.
pub record Floats : Type 0 where
  pub of_int : ℤ → ℕ
  pub quotient : ℕ → ℕ → ℕ
  pub below : ℕ → ℕ → Bool
  -- The quotient of two integers, in big floats of a precision, as a float64.
  pub big_quotient : ℕ → ℕ → ℕ → ℕ

-- A value in a map of the file: a string, an int, or of any other type.
pub data Value : Type 0 where
  text_value : GoString → Value
  int_value : ℤ → Value
  other_value : Value

-- What the getters of viper return; a missing key reads zero.
pub record Viper : Type 0 where
  pub get_string : GoString → GoString
  pub get_int : GoString → ℤ
  pub get_bool : GoString → Bool
  pub get_string_map : GoString → Map GoString Value

-- How a call ends: with a value, with an error, or with a panic.
pub data Loaded (A : Type 0) : Type 0 where
  loaded : A → Loaded A
  failed : Loaded A
  panicked : Loaded A

infixl 5 ◌>>=◌
abbrev pub ◌>>=◌ : {A B : Type 0} → Loaded A → (A → Loaded B) → Loaded B
loaded a >>= f = f a
failed >>= f = failed
panicked >>= f = panicked

-- An error that the caller returns.
abbrev pub or_fail : {A : Type 0} → Option A → Loaded A
or_fail none = failed
or_fail (some a) = loaded a

-- A type assertion without a second result.
abbrev pub or_panic : {A : Type 0} → Option A → Loaded A
or_panic none = panicked
or_panic (some a) = loaded a

-- `v.(int)` and `v.(string)`, where v may be missing.
abbrev pub as_int : Option Value → Option ℤ
as_int (some (int_value z)) = some z
as_int _ = none

abbrev pub as_text : Option Value → Option GoString
as_text (some (text_value s)) = some s
as_text _ = none

-- The three maps that the loop of `LoadConfig` fills.
pub record Cluster : Type 0 where
  pub ports : Map GoString ℤ
  pub addresses : Map GoString GoString
  pub public_keys : Map GoString (Slice ℕ)

abbrev pub no_cluster : Cluster
no_cluster = record { ports = []; addresses = []; public_keys = [] }

-- The loop, over the public keys in the order of the range statement.
unfoldable pub load_cluster :
    Map GoString Value → Map GoString Value → List (GoString × Value) → Cluster → Loaded Cluster
load_cluster ports ips [] c = loaded c
load_cluster ports ips ((name, value) ∷ rest) c = do
  port ← or_panic (as_int (get name ports))
  address ← or_panic (as_text (get name ips))
  text ← or_fail (as_text (some value))
  key ← or_fail (decode_string text)
  load_cluster ports ips rest (record {
    ports = put name port c.ports;
    addresses = put name address c.addresses;
    public_keys = put name (some key) c.public_keys;
  })

module _ (floats : Floats) where
  -- The configuration, from what is decoded and what is read as it is.
  abbrev pub config_of : Viper → List ℕ → PubPoly → PriShare → Cluster → Config
  config_of v private_key ts_public_key ts_private_key cluster = record {
    name = v.get_string (codes "name");
    max_pool = v.get_int (codes "max_pool");
    listen_port = pos 0;
    p2p_listen_port = v.get_int (codes "p2p_listen_port");
    rpc_listen_port = v.get_int (codes "rpc_listen_port");
    addr_str = v.get_string (codes "address");
    cluster_addr = cluster.addresses;
    cluster_port = cluster.ports;
    public_key_map = cluster.public_keys;
    private_key = some private_key;
    ts_public_key = ts_public_key;
    ts_private_key = ts_private_key;
    probability =
        floats.quotient (floats.of_int (v.get_int (codes "expectation")))
          (floats.of_int (pos (length cluster.addresses)));
    sortition_enabled = v.get_bool (codes "sortition_enabled");
    log_level = v.get_int (codes "log_level");
    can_propose_block = v.get_bool (codes "can_propose_block");
  }

module _ (floats : Floats) (c : Codecs) where
  -- `LoadConfig`; `none` is a file that cannot be read.
  unfoldable pub load_config : Option Viper → Loaded Config
  unfolding load_cluster
  load_config viper = do
    v ← or_fail viper
    private_key ← or_fail (decode_string (v.get_string (codes "privkeyed")))
    public_bytes ← or_fail (decode_string (v.get_string (codes "tspubkey")))
    ts_public_key ← or_fail (decode_ts_public_key c public_bytes)
    share_bytes ← or_fail (decode_string (v.get_string (codes "tsshare")))
    ts_private_key ← or_fail (decode_ts_partial_key c share_bytes)
    cluster ←
        load_cluster (v.get_string_map (codes "peers_p2p_port"))
          (v.get_string_map (codes "cluster_ips")) (v.get_string_map (codes "cluster_pubkeyed"))
          no_cluster
    loaded (config_of floats v private_key ts_public_key ts_private_key cluster)
