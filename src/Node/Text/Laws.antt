-- ===== src/Node/Text/Laws.antt =====
-- What the texts of the chains hold.
use simple_ft.Base.{
  ℕ, zero, suc, ◌+◌, ◌-◌, ◌^◌, ◌≤◌, ◌<◌, ◌≡◌, ◌≢◌, refl, ap, GoString, Map, get, put, get-put_ne,
  nat_key, List, [], ◌∷◌, ◌++◌, get_elem?, length, none, some, codes, digits, arith, ltb,
  if◌then◌else◌,
}
use simple_ft.Data.{Block, BlockWithQc}
use simple_ft.Hashing.{Primitives}
use simple_ft.Config.{Config}
use simple_ft.Node.{Node}
use simple_ft.Node.Heights.{HasBlock}
use simple_ft.Node.Heights.Steps.{chain-Unbroken}
use simple_ft.Node.Tasks.{System, Event, run_all, start}
use simple_ft.Node.Text.{
  block_with_qc_string, block_texts, height_text, chain_loop, chain_string, candidate_loop,
  candidate_chain_string,
}

module _ (p : Primitives) where
  -- The texts of blocks, one after another.
  abbrev pub texts : List BlockWithQc → GoString
  texts [] = []
  texts (b ∷ bs) = block_with_qc_string p b ++ texts bs

  -- The blocks stand at the heights from `i` on.
  abbrev pub StandFrom : ℕ → Map ℕ BlockWithQc → List BlockWithQc → Type 0
  StandFrom i blocks bs =
      (j : ℕ) (b : BlockWithQc)
      → get_elem? bs j ≡ some b
      → (get (i + j) blocks ≡ some b) × (b.height ≡ i + j)

  right_zero : (i : ℕ) → i + 0 ≡ i
  right_zero i = omega arith

  shift : (i j : ℕ) → i + 1 + j ≡ i + suc j
  shift i j = omega arith

  StandFrom-cons :
      (i : ℕ) (blocks : Map ℕ BlockWithQc) (b : BlockWithQc) (bs : List BlockWithQc)
      → get i blocks ≡ some b
      → b.height ≡ i
      → StandFrom (i + 1) blocks bs
      → StandFrom i blocks (b ∷ bs)
  StandFrom-cons i blocks b bs e h rest zero c f =
      ground (arith, ap (λ (k : ℕ). get k blocks) (right_zero i))
  StandFrom-cons i blocks b bs e h rest (suc j) c f =
      ground (arith, rest j c f, ap (λ (k : ℕ). get k blocks) (shift i j))

  chain_loop-texts :
      (rounds i : ℕ) (blocks : Map ℕ BlockWithQc)
      → ((j : ℕ) → i ≤ j → j < i + rounds → HasBlock blocks j)
      → (bs : List BlockWithQc) × (length bs ≡ rounds)
        × StandFrom i blocks bs
        × (chain_loop p rounds i blocks ≡ some (texts bs))
  unfolding chain_loop
  chain_loop-texts zero i blocks has = ([], refl, λ j b e. cc, refl)
  chain_loop-texts (suc rounds) i blocks has =
      let (b, e, h) = has i (omega arith) (omega arith) in
      let (bs, long, stand, rest) =
        chain_loop-texts rounds (i + 1) blocks (λ j l u. has j (omega arith) (omega arith)) in
      (b ∷ bs, omega arith, StandFrom-cons i blocks b bs e h stand, rw (e, rest) refl)

  -- In every state that a node can reach from `NewNode`, if the chain is lower than 2^63 - 1,
  -- `Chain.String` does not panic: it returns the texts of the blocks that stand at the heights from
  -- 0 to the height of the chain, in the order of the heights, each at its own height.
  pub chain_string-run :
      (conf : Config) (es : List Event) (s : System)
      → run_all p (start p conf) es ≡ some s
      → s.node.chain.height < 2 ^ 63 - 1
      → (bs : List BlockWithQc) × (length bs ≡ s.node.chain.height + 1)
        × StandFrom 0 s.node.chain.blocks bs
        × (chain_string p s.node.chain ≡ some (texts bs))
  unfolding chain_string
  chain_string-run conf es s e low =
      let (bs, long, stand, text) =
        chain_loop-texts (s.node.chain.height + 1) 0 s.node.chain.blocks
          (λ j l u. chain-Unbroken p conf es s e j (omega arith)) in
      (bs, long, stand, ground (arith, text))

  height_text_ne :
      (order : Map GoString Block → List (GoString × Block)) (maps : ℕ → Map GoString Block)
      (blocks : Map ℕ ℕ) (top r i : ℕ)
      → top ≢ i
      → height_text p order maps (put top r blocks) i ≡ height_text p order maps blocks i
  unfolding height_text
  height_text_ne order maps blocks top r i h =
      ap
        (λ found.
          codes "[Height: "
          ++ digits i
          ++ codes "...]"
          ++ block_texts p (elim found [ none ↦ [] | some q ↦ order (maps q) ])
          ++ codes "          ")
        (get-put_ne top i r blocks h)

  candidate_loop_below :
      (order : Map GoString Block → List (GoString × Block)) (maps : ℕ → Map GoString Block)
      (blocks : Map ℕ ℕ) (top r rounds i : ℕ)
      → i + rounds ≤ top
      → candidate_loop p order maps (put top r blocks) rounds i
        ≡ candidate_loop p order maps blocks rounds i
  unfolding candidate_loop
  candidate_loop_below order maps blocks top r zero i h = refl
  candidate_loop_below order maps blocks top r (suc rounds) i h = ground (
    arith,
    height_text_ne order maps blocks top r i (omega arith),
    candidate_loop_below order maps blocks top r rounds (i + 1) (omega arith),
  )

  -- The text of `CandidateChain.String` is the same whichever blocks stand at the height of the
  -- candidate chain, so that it says nothing of its highest blocks.
  pub candidate_chain_string-top :
      (order : Map GoString Block → List (GoString × Block)) (n : Node) (r : ℕ)
      → candidate_chain_string p order (record n {
        candidate_chain = record n.candidate_chain {
          blocks = put n.candidate_chain.height r n.candidate_chain.blocks;
        };
      })
        ≡ candidate_chain_string p order n
  unfolding candidate_chain_string
  candidate_chain_string-top order n r =
      candidate_loop_below order n.block_maps n.candidate_chain.blocks n.candidate_chain.height r
        (if ltb n.candidate_chain.height (2 ^ 63) then n.candidate_chain.height else 0) 0
        (ground arith)
