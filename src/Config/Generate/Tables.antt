-- ===== src/Config/Generate/Tables.antt =====
-- What the loops of the tool make.
use simple_ft.Base.{
  ℕ, zero, suc, ℤ, ◌≡◌, refl, sym, ap, subst, ◌∙◌, GoString, encode_to_string, Map, IsMap, get, put,
  get-put, put-IsMap, string_key, key, bytes_discrete, Bool-cases, inl, inr, Option-cases, List, [],
  ◌∷◌, get_elem?, Option, none, some, All, arith,
}
use simple_ft.Keys.{PriShare, Codecs}
use simple_ft.Config.{Value, text_value, int_value, other_value, Viper, as_int}
use simple_ft.Config.Generate.{
  File, addresses_loop, ports_loop, keys_loop, string_le, insert, sort_strings, texts, Plan,
  write_file, files_loop,
}

-- The addresses are those of the map, which are all strings.
pub addresses_loop-get :
    (ips : Map GoString Value) (before after : Map GoString GoString) (a : GoString)
    → IsMap ips
    → addresses_loop ips before ≡ some after
    → (get a ips ≡ none → get a after ≡ get a before)
      × ((v : Value)
          → get a ips ≡ some v
          → (s : GoString) × (v ≡ text_value s) × (get a after ≡ some s))
unfolding addresses_loop get
addresses_loop-get [] before after a p e = (λ x. ground arith, λ v x. cc)
addresses_loop-get ((name, int_value z) ∷ rest) before after a p e = cc
addresses_loop-get ((name, other_value) ∷ rest) before after a p e = cc
addresses_loop-get ((name, text_value s) ∷ rest) before after a p e =
    let (others, own) = addresses_loop-get rest (put name s before) after a p.1 e in
    elim (bytes_discrete name a) [
      | no other ↦
          (λ x. ground (arith, others, get-put name a s before), λ v x. own v (ground arith))
      | yes here ↦ (
        λ x. absurd (ground arith),
        λ v x. (
          s,
          ground arith,
          others (ap (λ k. get k rest) (sym here) ∙ p.0) ∙ ground (arith, get-put name a s before),
        ),
      )
    ]

pub addresses_loop-IsMap :
    (ips : Map GoString Value) (before after : Map GoString GoString)
    → addresses_loop ips before ≡ some after
    → IsMap before
    → IsMap after
unfolding addresses_loop
addresses_loop-IsMap [] before after e p = subst IsMap {x = before} {y = after} (ground arith) p
addresses_loop-IsMap ((name, int_value z) ∷ rest) before after e p = cc
addresses_loop-IsMap ((name, other_value) ∷ rest) before after e p = cc
addresses_loop-IsMap ((name, text_value s) ∷ rest) before after e p =
    addresses_loop-IsMap rest (put name s before) after e (put-IsMap name s before p)

as_int-some : (v : Option Value) (z : ℤ) → as_int v ≡ some z → v ≡ some (int_value z)
as_int-some none z e = cc
as_int-some (some (text_value s)) z e = cc
as_int-some (some (int_value y)) z e = ground arith
as_int-some (some other_value) z e = cc

-- Each node with an address has a port.
pub ports_loop-get :
    (ports : Map GoString Value) (addresses : Map GoString GoString) (before after : Map GoString ℤ)
    (a s : GoString)
    → ports_loop ports addresses before ≡ some after
    → get a addresses ≡ some s
    → (z : ℤ) × (get a ports ≡ some (int_value z))
unfolding ports_loop get
ports_loop-get ports [] before after a s e x = cc
ports_loop-get ports ((name, addr) ∷ rest) before after a s e x =
    elim (Option-cases (as_int (get name ports))) [
      | inl missing ↦ absurd (ground arith)
      | inr (z, found) ↦ elim (bytes_discrete name a) [
        | yes here ↦ (z, ap (λ k. get k ports) (sym here) ∙ as_int-some (get name ports) z found)
        | no other ↦
            ports_loop-get ports rest (put name z before) after a s (ground arith) (ground arith)
      ]
    ]

pub keys_loop-get :
    (key : GoString → List ℕ) (addresses : Map GoString GoString) (before : Map GoString GoString)
    (a : GoString)
    → get a (keys_loop key addresses before)
      ≡ (elim (get a addresses) [ none ↦ get a before | some s ↦ some (encode_to_string (key a)) ])
unfolding keys_loop get
keys_loop-get key [] before a = refl
keys_loop-get key ((name, addr) ∷ rest) before a = elim (bytes_discrete name a) [
  | no other ↦ ground (
    arith,
    keys_loop-get key rest (put name (encode_to_string (key name)) before) a,
    get-put name a (encode_to_string (key name)) before,
  )
  | yes here ↦ ground (
    arith,
    keys_loop-get key rest (put name (encode_to_string (key name)) before) a,
    get-put name a (encode_to_string (key name)) before,
    ap key here,
  )
]

pub keys_loop-IsMap :
    (key : GoString → List ℕ) (addresses : Map GoString GoString) (before : Map GoString GoString)
    → IsMap before
    → IsMap (keys_loop key addresses before)
unfolding keys_loop
keys_loop-IsMap k [] before p = p
keys_loop-IsMap k ((name, addr) ∷ rest) before p =
    keys_loop-IsMap k rest (put name (encode_to_string (k name)) before)
      (put-IsMap name (encode_to_string (k name)) before p)

pub get-texts :
    (m : Map GoString GoString) (a : GoString)
    → get a (texts m) ≡ (elim (get a m) [ none ↦ none | some s ↦ some (text_value s) ])
unfolding get
get-texts [] a = refl
get-texts ((name, s) ∷ m) a = ground (arith, get-texts m a)

pub texts-IsMap : (m : Map GoString GoString) → IsMap m → IsMap (texts m)
unfolding get
texts-IsMap [] p = tt
texts-IsMap ((name, s) ∷ m) p = (ground (arith, get-texts m name), texts-IsMap m p.1)

insert-All :
    (P : GoString → Type 0) (a : GoString) (bs : List GoString)
    → P a
    → All P bs
    → All P (insert a bs)
unfolding insert
insert-All P a [] x xs = (x, tt)
insert-All P a (b ∷ bs) x xs = elim (Bool-cases (string_le a b)) [
  | inl e ↦ rw (e, insert) (x, xs)
  | inr e ↦ rw (e, insert) (xs.0, insert-All P a bs x xs.1)
]

-- Sorting keeps what holds of all.
pub sort_strings-All :
    (P : GoString → Type 0) (names : List GoString) → All P names → All P (sort_strings names)
unfolding sort_strings
sort_strings-All P [] xs = tt
sort_strings-All P (a ∷ names) xs =
    insert-All P a (sort_strings names) xs.0 (sort_strings-All P names xs.1)

module _ (c : Codecs) (template : Viper) (plan : Plan) where
  -- The file at a place is that of the name and the share at the place.
  pub files_loop-get :
      (names : List GoString) (shares : List PriShare) (files : List File) (i : ℕ) (file : File)
      → files_loop c template plan names shares ≡ some files
      → get_elem? files i ≡ some file
      → (name : GoString) × (share : PriShare) × (get_elem? names i ≡ some name)
        × (get_elem? shares i ≡ some share)
        × (write_file c template plan name share ≡ some file)
  unfolding files_loop
  files_loop-get [] shares files i file e x = absurd (ground arith)
  files_loop-get (name ∷ names) [] files i file e x = cc
  files_loop-get (name ∷ names) (share ∷ shares) files i file e x =
      elim (Option-cases (write_file c template plan name share)) [
        | inl fails ↦ absurd (ground arith)
        | inr (first, made) ↦ elim (Option-cases (files_loop c template plan names shares)) [
          | inl fails ↦ absurd (ground arith)
          | inr (others, all_made) ↦
              at_place i first others made (λ j. files_loop-get names shares others j file all_made)
                (subst (λ fs. get_elem? fs i ≡ some file) {x = files} {y = first ∷ others}
                  (ground arith) x)
        ]
      ]
    where
      at_place :
          (j : ℕ) (first : File) (others : List File)
          → write_file c template plan name share ≡ some first
          → ((k : ℕ)
              → get_elem? others k ≡ some file
              → (n : GoString) × (s : PriShare) × (get_elem? names k ≡ some n)
                × (get_elem? shares k ≡ some s)
                × (write_file c template plan n s ≡ some file))
          → get_elem? (first ∷ others) j ≡ some file
          → (n : GoString) × (s : PriShare) × (get_elem? (name ∷ names) j ≡ some n)
            × (get_elem? (share ∷ shares) j ≡ some s)
            × (write_file c template plan n s ≡ some file)
      at_place zero first others made deeper at = (name, share, refl, refl, made ∙ at)
      at_place (suc j) first others made deeper at = deeper j at
