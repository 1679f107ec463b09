-- ===== src/Equality/Laws.antt =====
-- What the comparisons of requests and blocks decide.
use simple_ft.Base.{
  ℕ, suc, ◌≡◌, refl, ◌≢◌, ◌↔◌, Slice, elems, true, false, List, [], ◌∷◌, none, some, arith, length,
  GoString,
}
use simple_ft.Data.{RequestWrappedByServer, Block}
use simple_ft.Equality.{request_equal, cmds_at_index, cmds_loop, cmds_equal, block_equal, string_eq}

string_eq_iff : (a b : GoString) → (string_eq a b ≡ true) ↔ (a ≡ b)
string_eq_iff a b = ground arith

request_equal→≡ : (r r2 : RequestWrappedByServer) → request_equal r r2 ≡ true → r ≡ r2
unfolding request_equal
request_equal→≡ r r2 h = ground arith

request_equal_self : (r : RequestWrappedByServer) → request_equal r r ≡ true
unfolding request_equal
request_equal_self r = ground arith

-- Two requests compare equal exactly when they are equal.
pub request_equal_iff : (r r2 : RequestWrappedByServer) → (request_equal r r2 ≡ true) ↔ (r ≡ r2)
request_equal_iff r r2 = (request_equal→≡ r r2, λ e. rw e (request_equal_self r2))

-- Equally many requests, different at every place.
abbrev pub AllDiffer : List RequestWrappedByServer → List RequestWrappedByServer → Type 0
AllDiffer [] [] = Unit
AllDiffer (c ∷ cs) (d ∷ ds) = (c ≢ d) × AllDiffer cs ds
AllDiffer _ _ = ⊥

abbrev pub CmdsDiffer : Slice RequestWrappedByServer → Slice RequestWrappedByServer → Type 0
CmdsDiffer none none = Unit
CmdsDiffer (some cs) (some ds) = AllDiffer cs ds
CmdsDiffer _ _ = ⊥

cmds_loop→AllDiffer :
    (i : ℕ) (cs ds : List RequestWrappedByServer)
    → length cs ≡ length ds
    → cmds_loop i cs ds ≡ (true, none)
    → AllDiffer cs ds
unfolding cmds_loop
cmds_loop→AllDiffer i [] [] l h = tt
cmds_loop→AllDiffer i [] (d ∷ ds) l h = absurd (omega arith)
cmds_loop→AllDiffer i (c ∷ cs) [] l h = absurd (omega arith)
cmds_loop→AllDiffer i (c ∷ cs) (d ∷ ds) l h =
    ground (arith, request_equal_iff c d, cmds_loop→AllDiffer (suc i) cs ds)

AllDiffer→cmds_loop :
    (i : ℕ) (cs ds : List RequestWrappedByServer)
    → AllDiffer cs ds
    → (length cs ≡ length ds) × (cmds_loop i cs ds ≡ (true, none))
unfolding cmds_loop
AllDiffer→cmds_loop i [] [] a = (refl, refl)
AllDiffer→cmds_loop i [] (d ∷ ds) a = absurd a
AllDiffer→cmds_loop i (c ∷ cs) [] a = absurd a
AllDiffer→cmds_loop i (c ∷ cs) (d ∷ ds) a =
    ground (arith, request_equal_iff c d, AllDiffer→cmds_loop (suc i) cs ds)

cmds_equal_iff :
    (cs ds : Slice RequestWrappedByServer) → (cmds_equal cs ds ≡ (true, none)) ↔ CmdsDiffer cs ds
unfolding cmds_equal
cmds_equal_iff none none = (λ _. tt, λ _. refl)
cmds_equal_iff none (some ds) = (λ h. cc, λ a. absurd a)
cmds_equal_iff (some cs) none = (λ h. cc, λ a. absurd a)
cmds_equal_iff (some cs) (some ds) = (
  λ h. ground (arith, cmds_loop→AllDiffer 0 cs ds),
  λ a. ground (arith, AllDiffer→cmds_loop 0 cs ds a),
)

-- `Block.Equal` accepts two blocks exactly when proposers, heights and previous hashes agree and
-- either both have no list of commands (nil), or both have lists of the same length whose commands
-- differ at every place.
pub block_equal_iff :
    (b b2 : Block)
    → (block_equal b b2 ≡ (true, none)) ↔ (
        (b.proposer ≡ b2.proposer)
        × (b.height ≡ b2.height)
        × (elems b.previous_hash ≡ elems b2.previous_hash)
        × CmdsDiffer b.cmds b2.cmds)
unfolding block_equal
block_equal_iff b b2 = ground (arith, cmds_equal_iff b.cmds b2.cmds)

-- A block that carries at least one command is never equal to itself, by `Block.Equal`: the
-- comparison stops at the first command and reports it as different.
pub block_equal_self :
    (b : Block) (c : RequestWrappedByServer) (cs : List RequestWrappedByServer)
    → b.cmds ≡ some (c ∷ cs)
    → block_equal b b ≡ (false, some (cmds_at_index 0))
unfolding block_equal cmds_equal
block_equal_self b c cs e = ground (arith, request_equal_self c)
