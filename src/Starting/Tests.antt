-- ===== src/Starting/Tests.antt =====
-- The start of the sample node.
use simple_ft.Base.{ℕ, pos, GoString, key, string_key, Bool, true, false, List, [], ◌∷◌, ite, ltb}
use simple_ft.Config.{Floats}
use simple_ft.Starting.{Host}

-- Whether an address is free.
unfoldable is_free : List GoString → GoString → Bool
is_free [] a = true
is_free (b ∷ bound) a = ite (key b a) false (is_free bound a)

-- Whole numbers in place of floats.
abbrev whole : Floats
whole = record {
  of_int = λ z. elim z [ pos n ↦ n | _ ↦ 0 ];
  quotient = λ a b. 0;
  below = ltb;
  big_quotient = λ q a b. 0;
}

abbrev host : Host
host = record { listens = is_free; registers = true; dials = λ a. true }

abbrev p2p_port : ℕ
p2p_port = 80

abbrev rpc_port : ℕ
rpc_port = 90
