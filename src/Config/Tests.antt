-- ===== src/Config/Tests.antt =====
-- A cluster of two nodes: the files that the tool makes for it, and the loading of one of them.
use simple_ft.Base.{
  ℕ, ℤ, pos, ◌≡◌, refl, sym, ap, subst, GoString, codes, encode_to_string, Map, IsMap, get, put,
  string_key, bytes_discrete, ℕ_discrete, Bool, true, false, Bool-cases, ltb, inl, inr,
  Option-cases, List, [], ◌∷◌, ◌++◌, map, get_elem?, Option, none, some, arith,
}
use simple_ft.Quorum.{num_t}
use simple_ft.Keys.{
  PriShare, PubPoly, Codecs, encode_ts_partial_key, encode_ts_public_key, marshall_commits,
}
use simple_ft.Keys.Tests.{toy_codecs, toy-Lossless, public_bytes, publics_back}
use simple_ft.Keys.RoundTrip.{Lossless}
use simple_ft.Config.{Config, Floats, Value, text_value, int_value, Viper, loaded, load_config}
use simple_ft.Config.Generate.{
  Setting, text_setting, int_setting, bool_setting, table_setting, File, addresses_loop, ports_loop,
  keys_loop, string_le, insert, sort_strings, write_file, files_loop, generate,
}
use simple_ft.Config.Generate.Loads.{Describes, load_config-generate}
use simple_ft.Config.Generate.Reading.{to_lower, IsBytes, Reads, InBytes, IsTemplate, Lower}
use simple_ft.Config.Generate.Nodes.{SameTable}

-- Bytes stay, and other lists are refused.
abbrev guarded : List ℕ → Option (List ℕ)
guarded [] = some []
guarded (b ∷ bs) = elim (ltb b 256) [
  | false ↦ none
  | true ↦ elim (guarded bs) [ none ↦ none | some cs ↦ some (b ∷ cs) ]
]

guarded-IsBytes : (xs bytes : List ℕ) → guarded xs ≡ some bytes → (xs ≡ bytes) × IsBytes bytes
guarded-IsBytes [] bytes e = (ground arith, subst IsBytes {x = []} {y = bytes} (ground arith) tt)
guarded-IsBytes (b ∷ bs) bytes e = elim (Bool-cases (ltb b 256)) [
  | inr big ↦ absurd (ground arith)
  | inl small ↦ elim (Option-cases (guarded bs)) [
    | inl fails ↦ absurd (ground arith)
    | inr (cs, done) ↦
        let (same, below) = guarded-IsBytes bs cs done in
        let all : some (b ∷ cs) ≡ some bytes = ground arith in
        (
          ground (arith, all, same),
          subst IsBytes {x = b ∷ cs} {y = bytes} (ground (arith, all)) (ground arith, below),
        )
  ]
]

abbrev or_none : Option (List ℕ) → Option (List ℕ)
or_none none = none
or_none (some bytes) = guarded bytes

abbrev byte_codecs : Codecs
byte_codecs = record toy_codecs {
  encode_partial = λ m. guarded (m.i ∷ m.binary);
  encode_public = λ m. or_none (public_bytes m);
}

or_none-some :
    (o : Option (List ℕ)) (bytes : List ℕ)
    → or_none o ≡ some bytes
    → (o ≡ some bytes) × IsBytes bytes
or_none-some none bytes e = cc
or_none-some (some xs) bytes e =
    let (same, below) = guarded-IsBytes xs bytes e in (ap some same, below)

byte-Lossless : Lossless byte_codecs
byte-Lossless = record {
  scalars = toy-Lossless.scalars;
  points = toy-Lossless.points;
  partials = λ m bytes e.
      toy-Lossless.partials m bytes (ap some (guarded-IsBytes (m.i ∷ m.binary) bytes e).0);
  publics = λ m bytes e. publics_back m bytes (or_none-some (public_bytes m) bytes e).0;
}

abbrev plain_floats : Floats
plain_floats = record {
  of_int = λ z. 0;
  quotient = λ a b. 0;
  below = λ a b. false;
  big_quotient = λ q a b. 0;
}

abbrev ips : Map GoString Value
ips = (codes "n2", text_value (codes "k")) ∷ (codes "n1", text_value (codes "h")) ∷ []

abbrev ports : Map GoString Value
ports = (codes "n1", int_value (pos 81)) ∷ (codes "n2", int_value (pos 82)) ∷ []

abbrev table_at : GoString → Map GoString Value
table_at k = elim (bytes_discrete k (codes "ips")) [
  | yes e ↦ ips
  | no e ↦ elim (bytes_discrete k (codes "peers_p2p_port")) [ yes e ↦ ports | no e ↦ [] ]
]

abbrev template : Viper
template = record {
  get_string = λ k. [];
  get_int = λ k. pos 3;
  get_bool = λ k. true;
  get_string_map = table_at;
}

abbrev key_pair : GoString → List ℕ × List ℕ
key_pair name = (1 ∷ 2 ∷ [], 200 ∷ [])

abbrev deal : ℕ → ℕ → List PriShare × PubPoly
deal t n = (
  record { i = 0; v = 10 } ∷ record { i = 1; v = 11 } ∷ [],
  record { base = 3; commits = 5 ∷ 6 ∷ [] },
)

abbrev or_no_files : Option (List File) → List File
or_no_files none = []
or_no_files (some files) = files

abbrev files : List File
files = or_no_files (generate byte_codecs template key_pair deal)

abbrev no_file : File
no_file = record { path = []; settings = [] }

abbrev at : List File → ℕ → File
at [] i = no_file
at (f ∷ fs) ℕ.zero = f
at (f ∷ fs) (ℕ.suc i) = at fs i

-- The file of the second node.
abbrev second : File
second = at files 1

-- A reader that puts every key in lower case.
abbrev lowered : Map GoString Setting → Map GoString Setting
lowered = map (λ e. (to_lower e.0, e.1))

abbrev string_in : Option Setting → GoString
string_in (some (text_setting s)) = s
string_in _ = []

abbrev int_in : Option Setting → ℤ
int_in (some (int_setting z)) = z
int_in _ = pos 0

abbrev bool_in : Option Setting → Bool
bool_in (some (bool_setting b)) = b
bool_in _ = false

abbrev table_in : Option Setting → Map GoString Value
table_in (some (table_setting m)) = m
table_in _ = []

abbrev read : Map GoString Setting → Viper
read settings = record {
  get_string = λ k. string_in (get k (lowered settings));
  get_int = λ k. int_in (get k (lowered settings));
  get_bool = λ k. bool_in (get k (lowered settings));
  get_string_map = λ k. table_in (get k (lowered settings));
}

get-lowered :
    (m : Map GoString Setting) (k : GoString) (x : Setting)
    → IsMap (lowered m)
    → get k m ≡ some x
    → get (to_lower k) (lowered m) ≡ some x
unfolding get
get-lowered [] k x p e = cc
get-lowered ((b, y) ∷ m) k x p e = elim (bytes_discrete b k) [
  | yes here ↦ ground (arith, ap to_lower here)
  | no other ↦ elim (bytes_discrete (to_lower b) (to_lower k)) [
    | yes same ↦ absurd (ground (arith, ap (λ j. get j (lowered m)) same, get-lowered m k x p.1))
    | no apart ↦ ground (arith, get-lowered m k x p.1)
  ]
]

read-Reads :
    (settings : Map GoString Setting) → IsMap (lowered settings) → Reads settings (read settings)
read-Reads settings p = record {
  strings = λ k s e. ap string_in (get-lowered settings k (text_setting s) p e);
  ints = λ k z e. ap int_in (get-lowered settings k (int_setting z) p e);
  bools = λ k b e. ap bool_in (get-lowered settings k (bool_setting b) p e);
  tables = λ k m e q l.
      subst (SameTable m) (sym (ap table_in (get-lowered settings k (table_setting m) p e)))
        (record { same = λ a. refl; proper = q });
}

ips-Lower : Lower ips
unfolding get to_lower
ips-Lower a h = elim (bytes_discrete (codes "n2") a) [
  | yes e ↦ subst (λ x. to_lower x ≡ x) e refl
  | no e ↦ elim (bytes_discrete (codes "n1") a) [
    | yes f ↦ subst (λ x. to_lower x ≡ x) f refl
    | no f ↦ absurd (h (ground arith))
  ]
]

ports-Lower : Lower ports
unfolding get to_lower
ports-Lower a h = elim (bytes_discrete (codes "n1") a) [
  | yes e ↦ subst (λ x. to_lower x ≡ x) e refl
  | no e ↦ elim (bytes_discrete (codes "n2") a) [
    | yes f ↦ subst (λ x. to_lower x ≡ x) f refl
    | no f ↦ absurd (h (ground arith))
  ]
]

template-IsTemplate : IsTemplate template
unfolding get bytes_discrete ℕ_discrete
template-IsTemplate = record {
  ips_proper = (refl, (refl, tt));
  ports_proper = (refl, (refl, tt));
  ips_lower = ips-Lower;
  ports_lower = ports-Lower;
}

key_pair-InBytes : InBytes byte_codecs key_pair
key_pair-InBytes = record {
  private_keys = λ name. omega arith;
  public_keys = λ name. omega arith;
  partials = λ m bytes e. (guarded-IsBytes (m.i ∷ m.binary) bytes e).1;
  publics = λ m bytes e. (or_none-some (public_bytes m) bytes e).1;
}

-- All that the tool computes with.
tool : Unit {0}
unfolding generate addresses_loop ports_loop keys_loop string_le insert sort_strings write_file
    files_loop encode_ts_partial_key encode_ts_public_key marshall_commits num_t encode_to_string
    get put bytes_discrete ℕ_discrete to_lower
tool = tt

second_name : second.path ≡ codes "n2.yaml"
unfolding tool
second_name = refl

second-IsMap : IsMap (lowered second.settings)
unfolding tool
second-IsMap = (
  refl,
  (
    refl,
    (
      refl,
      (
        refl,
        (refl, (refl, (refl, (refl, (refl, (refl, (refl, (refl, (refl, (refl, (refl, tt))))))))))),
      ),
    ),
  ),
)

load_config-generate_example :
    (name : GoString) × (share : PriShare) × (conf : Config) × (second.path ≡ name ++ codes ".yaml")
    × (get_elem? (sort_strings (codes "n2" ∷ codes "n1" ∷ [])) 1 ≡ some name)
    × (get_elem? (deal 2 2).0 1 ≡ some share)
    × (load_config plain_floats byte_codecs (some (read second.settings)) ≡ loaded conf)
    × Describes byte_codecs plain_floats template key_pair deal name share conf
unfolding tool
load_config-generate_example =
    load_config-generate byte_codecs plain_floats template key_pair deal files 1 second
      (read second.settings) byte-Lossless key_pair-InBytes template-IsTemplate refl refl
      (read-Reads second.settings second-IsMap)
