-- ===== src/Equality.antt =====
-- The comparisons of core/block.go, core/rpc_handler.go and core/chain.go.
pub mod Laws
pub mod Chains
mod Tests
use simple_ft.Base.{
  ℕ, suc, ◌≡◌, Slice, elems, Map, get, key, Bool, true, false, not, ◌&&◌, ◌||◌, List, [], ◌∷◌,
  Option, none, some, ite, length, ◌==◌, if◌then◌else◌, GoString, string_key, nat_key,
  bytes_discrete,
}
use simple_ft.Data.{Request, RequestWrappedByServer, Block, BlockWithQc}

-- `a == b` on strings.
abbrev pub string_eq : GoString → GoString → Bool
string_eq a b = ite (bytes_discrete a b) true false

-- `bytes.Equal` compares what the slices hold, so that nil equals an empty slice.
abbrev pub bytes_equal : Slice ℕ → Slice ℕ → Bool
bytes_equal a b = string_eq (elems a) (elems b)

abbrev pub is_nil {ℓ} : {A : Type ℓ} → Slice A → Bool
is_nil none = true
is_nil (some xs) = false

-- `RequestWrappedByServer.Equal`
unfoldable pub request_equal : RequestWrappedByServer → RequestWrappedByServer → Bool
request_equal r r2 =
    if not (string_eq r.server_name r2.server_name) || not (r.sn == r2.sn)
    then false
    else if is_nil r.cmd
    then (if not (is_nil r2.cmd) then false else bytes_equal r.cmd r2.cmd)
    else if is_nil r2.cmd
    then false
    else bytes_equal r.cmd r2.cmd

-- The errors by what their texts say.
pub data Difference : Type 0 where
  proposers heights previous_hashes nil_cmds lengths_of_cmds qcs chain_heights : Difference
  cmds_at_index : ℕ → Difference

-- The loop over `b.Cmds`. The lists are equally long, so `b2.Cmds[i]` is there.
unfoldable pub cmds_loop :
    ℕ → List RequestWrappedByServer → List RequestWrappedByServer → Bool × Option Difference
cmds_loop i (cmd ∷ rest) (cmd2 ∷ rest2) =
    let next = cmds_loop (suc i) rest rest2 in
    if request_equal cmd cmd2 then (false, some (cmds_at_index i)) else next
cmds_loop i _ _ = (true, none)

-- What `Block.Equal` does with the two lists of commands.
unfoldable pub cmds_equal :
    Slice RequestWrappedByServer → Slice RequestWrappedByServer → Bool × Option Difference
unfolding cmds_loop
cmds_equal none none = (true, none)
cmds_equal none (some ds) = (false, some nil_cmds)
cmds_equal (some cs) none = (false, some nil_cmds)
cmds_equal (some cs) (some ds) =
    if not (length cs == length ds) then (false, some lengths_of_cmds) else cmds_loop 0 cs ds

-- `Block.Equal`
unfoldable pub block_equal : Block → Block → Bool × Option Difference
block_equal b b2 =
    if not (string_eq b.proposer b2.proposer)
    then (false, some proposers)
    else if not (b.height == b2.height)
    then (false, some heights)
    else if not (bytes_equal b.previous_hash b2.previous_hash)
    then (false, some previous_hashes)
    else cmds_equal b.cmds b2.cmds

-- `BlockWithQC.Equal` looks at the error of the first comparison, not at its Boolean.
unfoldable pub block_with_qc_equal : BlockWithQc → BlockWithQc → Bool × Option Difference
block_with_qc_equal b b2 = elim ((block_equal b.block b2.block).1) [
  | some e ↦ (false, some e)
  | none ↦ if not (bytes_equal b.qc b2.qc) then (false, some qcs) else (true, none)
]

-- The loops of `Chain.Equal` and `Chain.EqualIgnoreQC`, over the entries in the order of the range
-- statement. `none` is a panic: `chain2.blocks[i]` is a nil pointer, whose field is read.
unfoldable pub blocks_loop :
    (BlockWithQc → BlockWithQc → Option Difference)
    → Map ℕ BlockWithQc
    → Map ℕ BlockWithQc
    → Option (Bool × Option Difference)
blocks_loop compare [] blocks2 = some (true, none)
blocks_loop compare ((i, block1) ∷ rest) blocks2 =
    let next = blocks_loop compare rest blocks2 in
    elim (get i blocks2) [
      | none ↦ none
      | some block2 ↦ elim (compare block1 block2) [ some e ↦ some (false, some e) | none ↦ next ]
    ]
