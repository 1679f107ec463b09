-- ===== src/Equality/Tests.antt =====
-- The comparisons at blocks with commands.
use simple_ft.Base.{◌≡◌, refl, ◌↔◌, elems, codes, true, false, [], ◌∷◌, none, some}
use simple_ft.Base.{length, All}
use simple_ft.Node.{Chain, genesis}
use simple_ft.Equality.{block_with_qc_equal}
use simple_ft.Equality.Chains.{Agrees, chain_equal, chain_equal_ignore_qc, chain_equal_iff}
use simple_ft.Data.{RequestWrappedByServer, Block}
use simple_ft.Equality.{cmds_at_index, block_equal}
use simple_ft.Equality.Laws.{CmdsDiffer, block_equal_iff, block_equal_self}

abbrev order_tea : RequestWrappedByServer
order_tea = record {
  request = record { cmd = some (codes "tea") };
  server_name = codes "n0";
  sn = 3;
}

abbrev with_tea : Block
with_tea = record {
  proposer = codes "n0";
  height = 2;
  previous_hash = none;
  cmds = some (order_tea ∷ []);
}

block_equal_iff_example : (block_equal with_tea with_tea ≡ (true, none)) ↔ (
    (with_tea.proposer ≡ with_tea.proposer)
    × (with_tea.height ≡ with_tea.height)
    × (elems with_tea.previous_hash ≡ elems with_tea.previous_hash)
    × CmdsDiffer with_tea.cmds with_tea.cmds)
block_equal_iff_example = block_equal_iff with_tea with_tea

block_equal_self_example : block_equal with_tea with_tea ≡ (false, some (cmds_at_index 0))
block_equal_self_example = block_equal_self with_tea order_tea [] refl

-- A chain with one block, which has no commands.
abbrev plain : Chain
plain = record { blocks = (0, record { block = genesis; qc = some [] }) ∷ []; height = 0 }

chain_equal_iff_example :
    ((chain_equal plain plain ≡ some (true, none)) ↔ (
      (length plain.blocks ≡ length plain.blocks)
      × (plain.height ≡ plain.height)
      × All (Agrees (λ b c. (block_with_qc_equal b c).1) plain.blocks) plain.blocks))
    × ((chain_equal_ignore_qc plain plain ≡ some (true, none)) ↔ (
        (length plain.blocks ≡ length plain.blocks)
        × (plain.height ≡ plain.height)
        × All (Agrees (λ b c. (block_equal b.block c.block).1) plain.blocks) plain.blocks))
chain_equal_iff_example = chain_equal_iff plain plain
