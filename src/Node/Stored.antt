-- ===== src/Node/Stored.antt =====
-- Where the blocks of a height are stored: the maps that `pendingBlocks` and the candidate chain
-- share, what stands in them, and the operations of Node/Candidates.antt on them.
pub mod Steps
use simple_ft.Base.{
  ℕ, zero, suc, ◌+◌, ◌≤◌, ◌<◌, ◌≡◌, refl, sym, ap, subst, ◌∙◌, ◌≢◌, ◌⊎◌, inl, inr, GoString, Map,
  get, put, key, nat_key, string_key, IsMap, get-put, get-put_self, get-put_ne, put-IsMap,
  length-le-put, Bool, true, false, Option-cases, List, [], ◌∷◌, Option, none, some, length, arith,
  ite, if_pos, if_neg, ℕ_discrete, u64,
}
use simple_ft.Data.{Block}
use simple_ft.Hashing.{Primitives, hash_key}
use simple_ft.Config.{Config}
use simple_ft.Node.{Node, CandidateChain, store, new_node, genesis}
use simple_ft.Node.Candidates.{
  ensure_pending, add_block, handle_new_block, try_update_candidate_chain,
  try_extend_candidate_chain,
}

-- The part of the state that says where blocks are.
pub record Places : Type 0 where
  pub pending : Map ℕ ℕ
  pub candidates : Map ℕ ℕ
  pub maps : ℕ → Map GoString Block
  pub next : ℕ

abbrev pub places : Node → Places
places n = record {
  pending = n.pending_blocks;
  candidates = n.candidate_chain.blocks;
  maps = n.block_maps;
  next = n.next_map;
}

-- The map at `r` holds blocks of height `h`: it is the one that `NewNode` makes for height 0, or
-- the one of `pendingBlocks`.
abbrev pub Home : Places → ℕ → ℕ → Type 0
Home v h r = ((h ≡ 0) × (r ≡ 0)) ⊎ (get h v.pending ≡ some r)

pub record Stored (p : Primitives) (v : Places) : Type 0 where
  pub some_map : 0 < v.next
  pub placed : (h r : ℕ) → get h v.pending ≡ some r → (0 < r) × (r < v.next)
  pub apart : (h k r : ℕ) → get h v.pending ≡ some r → get k v.pending ≡ some r → h ≡ k
  -- The two chains share their maps.
  pub aliased : (h r : ℕ) → get h v.candidates ≡ some r → Home v h r
  pub filled :
      (h r : ℕ)
      → Home v h r
      → (hash : GoString) (b : Block) → get hash (v.maps r) ≡ some b
      → (b.height ≡ h) × (hash ≡ hash_key p b)
  pub proper : (r : ℕ) → IsMap (v.maps r)

module _ {p : Primitives} {v : Places} (s : Stored p v) where
  open s use {some_map, placed, apart, aliased, filled, proper}

  Home-apart : (h k r : ℕ) → Home v h r → Home v k r → h ≡ k
  Home-apart h k r (inl (e, f)) (inl (g, _)) = e ∙ sym g
  Home-apart h k r (inl (e, f)) (inr g) = absurd (omega (arith, placed k r g))
  Home-apart h k r (inr e) (inl (_, f)) = absurd (omega (arith, placed h r e))
  Home-apart h k r (inr e) (inr g) = apart h k r e g

  -- A block goes to the map of its height.
  pub add-Stored :
      (r : ℕ) (b : Block)
      → Home v b.height r
      → Stored p (record v { maps = store r (put (hash_key p b) b (v.maps r)) v.maps })
  add-Stored r b home = record {
    some_map = some_map;
    placed = placed;
    apart = apart;
    aliased = aliased;
    filled = filled';
    proper = proper';
  }
    where
      filled' :
          (h q : ℕ)
          → Home v h q
          → (hash : GoString) (c : Block)
          → get hash (store r (put (hash_key p b) b (v.maps r)) v.maps q) ≡ some c
          → (c.height ≡ h) × (hash ≡ hash_key p c)
      filled' h q at hash c e = ground (
        arith,
        get-put (hash_key p b) hash b (v.maps r),
        filled h q at hash c,
        Home-apart b.height h q,
      )

      proper' : (q : ℕ) → IsMap (store r (put (hash_key p b) b (v.maps r)) v.maps q)
      proper' q = elim (ℕ_discrete r q) [
        | yes here ↦ rw (if_pos _ here) (put-IsMap (hash_key p b) b (v.maps r) (proper r))
        | no other ↦ rw (if_neg _ other) (proper q)
      ]

  -- A height without blocks gets a new map.
  abbrev pub allocated : ℕ → Places
  allocated height = record v {
    pending = put height v.next v.pending;
    maps = store v.next [] v.maps;
    next = v.next + 1;
  }

  pub Home-allocated :
      (height h r : ℕ) → Home (allocated height) h r → Home v h r ⊎ ((h ≡ height) × (r ≡ v.next))
  Home-allocated height h r (inl e) = inl (inl e)
  Home-allocated height h r (inr e) = ground (arith, get-put height h v.next v.pending)

  Home-lt : (h r : ℕ) → Home v h r → r < v.next
  Home-lt h r (inl (e, f)) = omega arith
  Home-lt h r (inr e) = (placed h r e).1

  allocated-Stored : (height : ℕ) → get height v.pending ≡ none → Stored p (allocated height)
  unfolding get
  allocated-Stored height absent = record {
    some_map = omega arith;
    placed = λ h r e. ground (arith, get-put height h v.next v.pending, placed h r);
    apart = λ h k r e f. ground (
      arith,
      get-put height h v.next v.pending,
      get-put height k v.next v.pending,
      placed h r,
      placed k r,
      apart h k r,
    );
    aliased = λ h r e. elim (aliased h r e) [
      | inl zero_map ↦ inl zero_map
      | inr f ↦ inr (ground (arith, get-put height h v.next v.pending))
    ];
    filled = λ h r home hash b e. elim (Home-allocated height h r home) [
      | inl old ↦ ground (arith, filled h r old hash b, Home-lt h r old)
      | inr (_, new) ↦ ground arith
    ];
    proper = λ r. elim (ℕ_discrete v.next r) [
      | yes here ↦ rw (if_pos _ here) tt
      | no other ↦ rw (if_neg _ other) (proper r)
    ];
  }

module _ (p : Primitives) where
  ensure_pending-Stored :
      (n : Node) (height : ℕ)
      → Stored p (places n)
      → let (m, r) = ensure_pending p n height in
        Stored p (places m) × (get height m.pending_blocks ≡ some r)
  unfolding ensure_pending
  ensure_pending-Stored n height s = elim (Option-cases (get height n.pending_blocks)) [
    | inr (r, e) ↦ rw (e, ensure_pending) (s, e)
    | inl e ↦
        rw (e, ensure_pending)
          (allocated-Stored s height e, get-put_self height n.next_map n.pending_blocks)
  ]

  pub handle_new_block-Stored :
      (n : Node) (b : Block) → Stored p (places n) → Stored p (places (handle_new_block p n b))
  unfolding handle_new_block
  handle_new_block-Stored n b s =
      let (s', e) = ensure_pending-Stored n b.height s in add-Stored s' _ b (inr e)

  pub try_update-Stored :
      (n : Node) (b : Block)
      → Stored p (places n)
      → Stored p (places (try_update_candidate_chain p n b).0)
  unfolding try_update_candidate_chain
  try_update-Stored n b s = elim (Option-cases (get b.height n.candidate_chain.blocks)) [
    | inl e ↦ rw (e, try_update_candidate_chain) s
    | inr (r, e) ↦ rw (e, try_update_candidate_chain) (add-Stored s r b (s.aliased b.height r e))
  ]

  pub try_extend-Stored :
      (n : Node) → Stored p (places n) → Stored p (places (try_extend_candidate_chain n).0)
  unfolding try_extend_candidate_chain
  try_extend-Stored n s = elim (Option-cases (get new n.pending_blocks)) [
    | inl e ↦ rw (e, try_extend_candidate_chain) s
    | inr (r, e) ↦
        rw (e, try_extend_candidate_chain)
          (record {
            some_map = s.some_map;
            placed = s.placed;
            apart = s.apart;
            aliased = λ h q f. extended h q r e f;
            filled = s.filled;
            proper = s.proper;
          })
  ]
    where
      new : ℕ
      new = u64 (n.candidate_chain.height + 1)

      extended :
          (h q r : ℕ)
          → get new n.pending_blocks ≡ some r
          → get h (put new r n.candidate_chain.blocks) ≡ some q
          → Home (places n) h q
      extended h q r e f = elim (ℕ_discrete new h) [
        | yes here ↦ inr (ground (arith, get-put new h r n.candidate_chain.blocks))
        | no other ↦ s.aliased h q (ground (arith, get-put new h r n.candidate_chain.blocks))
      ]

  pub new_node-Stored : (conf : Config) → Stored p (places (new_node p conf))
  unfolding new_node get
  new_node-Stored conf = record {
    some_map = omega arith;
    placed = λ h r e. cc;
    apart = λ h k r e f. cc;
    aliased = λ h r e. inl (ground arith);
    filled = λ h r home hash b e. ground arith;
    proper = λ r. elim (ℕ_discrete r 0) [
      | yes here ↦ rw (if_pos _ here) (refl, tt)
      | no other ↦ rw (if_neg _ other) tt
    ];
  }
