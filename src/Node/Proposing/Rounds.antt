-- ===== src/Node/Proposing/Rounds.antt =====
-- A round of `ProposeBlockLoop` in the states that a node reaches.
use simple_ft.Base.{
  true, false, Bool, ℕ, zero, suc, ◌+◌, ◌<◌, ◌≡◌, ◌≢◌, GoString, Map, IsMap, get, get_elem?,
  nat_key, string_key, Bool, ◌⊎◌, List, [], ◌∷◌, none, some, length, arith, u64,
}
use simple_ft.Data.{Block, proposal, sortition, new_block, new_sortition_msg}
use simple_ft.Hashing.{Primitives}
use simple_ft.Config.{Config}
use simple_ft.Node.{Node}
use simple_ft.Node.Sortition.{choose_round, seed_for_sortition}
use simple_ft.Node.Proposing.{Chance, take_requests, Round, proposed, lost}

-- The range statement goes through as many entries as there are, each of which is one of the map,
-- and `rand.Intn` returns a number below its argument.
pub record Fair (c : Chance) : Type 0 where
  pub goes_through : (m : Map GoString Block) → length (c.order m) ≡ length m
  pub in_map :
      (m : Map GoString Block) (i : ℕ) (hash : GoString) (b : Block)
      → IsMap m
      → get_elem? (c.order m) i ≡ some (hash, b)
      → get hash m ≡ some b
  pub below : (k : ℕ) → 0 < k → c.intn k < k

pub get_elem-get :
    (m : Map GoString Block) (i : ℕ) (hash : GoString) (b : Block)
    → IsMap m
    → get_elem? m i ≡ some (hash, b)
    → get hash m ≡ some b
unfolding get
get_elem-get [] i hash b p e = cc
get_elem-get ((k, c) ∷ m) zero hash b p e = ground arith
get_elem-get ((k, c) ∷ m) (suc i) hash b p e = ground (arith, get_elem-get m i hash b p.1 e)

module _ (p : Primitives) where
  -- The round that is drawn for at the next height, and the answer of the sortition.
  abbrev pub drawn : Node → Block → ℕ
  drawn n b = (choose_round n (u64 (b.height + 1))).1

  abbrev pub answer : (ℕ → Bool) → Node → Block → Bool
  answer win n b = win (seed_for_sortition (u64 (b.height + 1)) (drawn n b))

  -- Where the sortition is won, the round broadcasts a block on `b`, and where it is lost, that the
  -- node has lost.
  abbrev pub Broadcasts : (ℕ → Bool) → Node → Block → List ℕ → Round → Type 0
  Broadcasts win n b hash round =
      ((answer win n b ≡ true)
        × (m : Node) × (round
            ≡ proposed m (
                proposal (
                  new_block n.name (u64 (b.height + 1)) (some hash)
                    (some (take_requests n.request_pool).0))))
        × (m.request_pool ≡ (take_requests n.request_pool).1))
      ⊎ ((answer win n b ≡ false)
          × (m : Node) × (round
              ≡ lost m (sortition (new_sortition_msg n.name (u64 (b.height + 1)) (drawn n b))))
          × (m.request_pool ≡ n.request_pool))

  -- The key of the node can sign.
  abbrev pub Signs : Node → Type 0
  Signs n = (hash : List ℕ) → p.ed25519_sign n.private_key hash ≢ none
