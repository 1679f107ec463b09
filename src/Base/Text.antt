-- ===== src/Base/Text.antt =====
-- Go's strings and byte slices, package hex and `strconv.Itoa`.
use Prim.Native.Nat.{ℕ, zero, suc, ◌+◌, ◌-◌, ◌*◌, ◌/◌, ◌%◌, ◌<◌}
use Prim.Native.Char.{code}
use Prim.Native.String.{String}
use mathlib.Core.Path.{refl, ap, ◌≡◌}
use mathlib.Core.Bool.{◌&&◌}
use native.Mathlib.Omega.{arith}
use simple_ft.Base.Lists.{All}
use simple_ft.Base.Int.{ℤ, pos, negsuc}
use mathlib.Core.List.{List, [], ◌∷◌}
use mathlib.Core.Option.{Option, none, some}
use native.Mathlib.Decide.{ℕ_discrete}
use simple_ft.Base.Tests.{ltb, leb, if◌then◌else◌}
use simple_ft.Base.Maps.{Key}

-- A string is its bytes.
abbrev pub GoString : Type 0
GoString = List ℕ

-- A slice; `none` is nil.
abbrev pub Slice {ℓ} : Type ℓ → Type ℓ
Slice A = Option (List A)

-- What a slice holds; nil holds nothing.
abbrev pub elems {ℓ} : {A : Type ℓ} → Slice A → List A
elems none = []
elems (some xs) = xs

-- The bytes of a text in ASCII.
abbrev pub codes : String → GoString
codes String.[] = []
codes (String.◌∷◌ c s) = code c ∷ codes s

unfoldable pub bytes_discrete : Discrete (List ℕ)
unfolding ℕ_discrete
bytes_discrete [] [] = yes refl
bytes_discrete [] (y ∷ ys) = no (λ e. cc)
bytes_discrete (x ∷ xs) [] = no (λ e. cc)
bytes_discrete (x ∷ xs) (y ∷ ys) = elim (bytes_discrete xs ys) [
  | yes rest ↦ elim (ℕ_discrete x y) [ yes first ↦ yes (cc) | no first ↦ no (λ e. first (cc)) ]
  | no rest ↦ no (λ e. rest (cc))
]

instance abbrev pub nat_key : Key ℕ
nat_key = record { same = ℕ_discrete }

instance abbrev pub string_key : Key (List ℕ)
string_key = record { same = bytes_discrete }

-- A digit of "0123456789abcdef".
unfoldable pub hex_digit : ℕ → ℕ
hex_digit d = if ltb d 10 then b'0' + d else b'a' + (d - 10)

-- `hex.EncodeToString`
unfoldable pub encode_to_string : List ℕ → GoString
unfolding hex_digit
encode_to_string [] = []
encode_to_string (b ∷ bs) = hex_digit (b / 16) ∷ hex_digit (b % 16) ∷ encode_to_string bs

-- `fromHexChar` of encoding/hex, for digits of either case.
unfoldable pub from_hex_char : ℕ → Option ℕ
from_hex_char c =
    if leb b'0' c && leb c b'9'
    then some (c - b'0')
    else if leb b'a' c && leb c b'f'
    then some (c - b'a' + 10)
    else if leb b'A' c && leb c b'F'
    then some (c - b'A' + 10)
    else none

-- `hex.DecodeString`: `none` is an error, at a byte that is no digit or an odd length.
unfoldable pub decode_string : GoString → Option (List ℕ)
unfolding from_hex_char
decode_string [] = some []
decode_string (p ∷ []) = none
decode_string (p ∷ q ∷ rest) =
    let bytes = decode_string rest in
    elim (from_hex_char p) [
      | none ↦ none
      | some a ↦ elim (from_hex_char q) [
        | none ↦ none
        | some b ↦ elim bytes [ none ↦ none | some bs ↦ some ((a * 16 + b) ∷ bs) ]
      ]
    ]

from_hex_char-hex_digit : (d : ℕ) → d < 16 → from_hex_char (hex_digit d) ≡ some d
unfolding from_hex_char hex_digit
from_hex_char-hex_digit d h = ground arith

-- What is written in hex is read back.
pub decode_string-encode_to_string :
    (bytes : List ℕ)
    → All (λ b. b < 256) bytes
    → decode_string (encode_to_string bytes) ≡ some bytes
unfolding decode_string encode_to_string
decode_string-encode_to_string [] h = refl
decode_string-encode_to_string (b ∷ bs) h = ground (
  arith,
  from_hex_char-hex_digit (b / 16),
  from_hex_char-hex_digit (b % 16),
  decode_string-encode_to_string bs h.1,
)

-- The digits of a number, most significant first; `fuel` bounds their number.
unfoldable pub digits_loop : ℕ → ℕ → GoString → GoString
digits_loop zero n out = out
digits_loop (suc fuel) n out =
    let out' = (b'0' + n % 10) ∷ out in
    let rest = digits_loop fuel (n / 10) out' in if ltb n 10 then out' else rest

-- `%d` of an unsigned number.
unfoldable pub digits : ℕ → GoString
unfolding digits_loop
digits n = digits_loop (suc n) n []

-- The number that decimal digits stand for, after a number in front of them.
unfoldable pub value : ℕ → GoString → ℕ
value n [] = n
value n (c ∷ cs) = value (n * 10 + (c - b'0')) cs

value-digits_loop :
    (fuel n : ℕ) (out : GoString) → n < fuel → value 0 (digits_loop fuel n out) ≡ value n out
unfolding digits_loop value
value-digits_loop zero n out h = absurd (omega arith)
value-digits_loop (suc fuel) n out h = ground (
  arith,
  value-digits_loop fuel (n / 10) ((b'0' + n % 10) ∷ out),
  ap (λ (k : ℕ). value k out) (last_digit n),
)
  where
    last_digit : (k : ℕ) → k / 10 * 10 + (b'0' + k % 10 - b'0') ≡ k
    last_digit k = omega arith

-- The decimal digits of a number stand for it.
pub value-digits : (n : ℕ) → value 0 (digits n) ≡ n
unfolding digits value
value-digits n = value-digits_loop (suc n) n [] (omega arith)

-- `strconv.Itoa`
unfoldable pub itoa : ℤ → GoString
unfolding digits
itoa (pos n) = digits n
itoa (negsuc n) = b'-' ∷ digits (n + 1)
