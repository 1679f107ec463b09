-- ===== src/Rpc/Tests.antt =====
-- Three clients at the handler of one node.
use simple_ft.Base.{◌≡◌, refl, codes, List, [], ◌∷◌, some, arith, length}
use simple_ft.Node.Proposing.{take_requests}
use simple_ft.Rpc.{new_handler, Event, call, end_call, propose, run}
use simple_ft.Rpc.Numbers.{holders, numbers_once}

abbrev asks : Event
asks = call (record { cmd = some (codes "tea") })

-- The second call ends before the first, and a block is packaged between.
abbrev busy : List Event
busy = asks ∷ asks ∷ end_call 1 ∷ propose ∷ asks ∷ end_call 0 ∷ []

busy_result :
    ((run (new_handler (codes "n0")) busy).next_sn ≡ 3)
    × (length (run (new_handler (codes "n0")) busy).packaged ≡ 1)
    × (length (run (new_handler (codes "n0")) busy).pool ≡ 1)
    × (length (run (new_handler (codes "n0")) busy).calls ≡ 1)
unfolding run take_requests
busy_result = (refl, refl, refl, refl)

numbers_once_example : holders (run (new_handler (codes "n0")) busy) 2 ≡ 1
numbers_once_example = numbers_once (codes "n0") busy (omega arith) 2
