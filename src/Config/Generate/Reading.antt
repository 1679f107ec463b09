-- ===== src/Config/Generate/Reading.antt =====
-- What viper and the libraries of keys promise of a file that config_gen/main.go has written.
use simple_ft.Base.{
  ℕ, ℤ, ◌+◌, ◌<◌, ◌≡◌, ◌≢◌, GoString, codes, Map, IsMap, get, string_key, Bool, leb, ◌&&◌, List,
  map, none, some, All, if◌then◌else◌,
}
use simple_ft.Keys.{TsPartialMarshalled, TsPublicMarshalled, Codecs}
use simple_ft.Config.{Value, Viper}
use simple_ft.Config.Generate.Nodes.{SameTable}
use simple_ft.Config.Generate.{Setting, text_setting, int_setting, bool_setting, table_setting}

-- Viper does not tell keys apart by case.
unfoldable pub to_lower : GoString → GoString
to_lower = map (λ c. if leb b'A' c && leb c b'Z' then c + 32 else c)

abbrev pub Lower : Map GoString Value → Type 0
Lower m = (a : GoString) → get a m ≢ none → to_lower a ≡ a

-- What viper reads of a file in which the settings were written: each under its key in lower case,
-- and a table with keys in lower case with the same entries.
pub record Reads (settings : Map GoString Setting) (v : Viper) : Type 0 where
  pub strings :
      (k s : GoString) → get k settings ≡ some (text_setting s) → v.get_string (to_lower k) ≡ s
  pub ints :
      (k : GoString) (z : ℤ) → get k settings ≡ some (int_setting z) → v.get_int (to_lower k) ≡ z
  pub bools :
      (k : GoString) (b : Bool)
      → get k settings ≡ some (bool_setting b)
      → v.get_bool (to_lower k) ≡ b
  pub tables :
      (k : GoString) (m : Map GoString Value)
      → get k settings ≡ some (table_setting m)
      → IsMap m
      → Lower m
      → SameTable m (v.get_string_map (to_lower k))

abbrev pub IsBytes : List ℕ → Type 0
IsBytes = All (λ b. b < 256)

-- Keys and their encodings are bytes.
pub record InBytes (c : Codecs) (key_pair : GoString → List ℕ × List ℕ) : Type 0 where
  pub private_keys : (name : GoString) → IsBytes (key_pair name).0
  pub public_keys : (name : GoString) → IsBytes (key_pair name).1
  pub partials :
      (m : TsPartialMarshalled) (bytes : List ℕ) → c.encode_partial m ≡ some bytes → IsBytes bytes
  pub publics :
      (m : TsPublicMarshalled) (bytes : List ℕ) → c.encode_public m ≡ some bytes → IsBytes bytes

-- The maps of the template are as viper gives them.
pub record IsTemplate (template : Viper) : Type 0 where
  pub ips_proper : IsMap (template.get_string_map (codes "ips"))
  pub ports_proper : IsMap (template.get_string_map (codes "peers_p2p_port"))
  pub ips_lower : Lower (template.get_string_map (codes "ips"))
  pub ports_lower : Lower (template.get_string_map (codes "peers_p2p_port"))
