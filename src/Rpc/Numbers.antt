-- ===== src/Rpc/Numbers.antt =====
-- The serial numbers of requests: none is lost and none is given twice.
use simple_ft.Base.{
  total, total-append, bit, pick, total-pick, ℕ, suc, ◌+◌, ◌<◌, ◌^◌, ◌≡◌, refl, GoString, List, [],
  ◌∷◌, ltb, ◌==◌, arith, Option-cases, inl, inr, length, take, drop, take-append-drop, ap,
}
use simple_ft.Data.{Request, RequestWrappedByServer}
use simple_ft.Node.Proposing.{take_requests, end_num}
use simple_ft.Rpc.{
  Handler, new_handler, draw_sn, finish, package_block, Event, call, end_call, propose, step, run,
}

-- 1 for a request with the serial number.
abbrev pub numbered : ℕ → RequestWrappedByServer → ℕ
numbered k r = bit (r.sn == k)

-- How many requests with the number are in a call, in the pool or packaged.
abbrev pub holders : Handler → ℕ → ℕ
holders c k = total (numbered k) c.calls + total (numbered k) c.pool + total (numbered k) c.packaged

-- The calls among the events.
abbrev pub calls_in : List Event → ℕ
calls_in [] = 0
calls_in (call req ∷ es) = suc (calls_in es)
calls_in (e ∷ es) = calls_in es

-- Each number below the next has one request, and no other number has any.
abbrev Numbered : Handler → Type 0
Numbered c = (k : ℕ) → holders c k ≡ bit (ltb k c.next_sn)

draw_sn-Numbered :
    (c : Handler) (req : Request) → c.next_sn + 1 < 2 ^ 64 → Numbered c → Numbered (draw_sn c req)
unfolding draw_sn
draw_sn-Numbered c req h n k = ground (
  arith,
  n k,
  total-append (numbered k) c.calls
      (record { request = req; server_name = c.node_name; sn = c.next_sn } ∷ []),
)

finish-Numbered : (c : Handler) (i : ℕ) → Numbered c → Numbered (finish c i)
unfolding finish
finish-Numbered c i n = elim (Option-cases (pick i c.calls)) [
  | inl e ↦ rw (e, finish) n
  | inr ((r, rest), e) ↦
      rw (e, finish)
        (λ k. ground (
          arith,
          n k,
          total-pick (numbered k) i c.calls r rest e,
          total-append (numbered k) c.pool (r ∷ []),
        ))
]

package-next : (c : Handler) → (package_block c).next_sn ≡ c.next_sn
unfolding package_block
package-next c = refl

finish-next : (c : Handler) (i : ℕ) → (finish c i).next_sn ≡ c.next_sn
unfolding finish
finish-next c i = ground arith

draw_sn-next :
    (c : Handler) (req : Request) → c.next_sn + 1 < 2 ^ 64 → (draw_sn c req).next_sn ≡ c.next_sn + 1
unfolding draw_sn
draw_sn-next c req h = omega arith

package-Numbered : (c : Handler) → Numbered c → Numbered (package_block c)
unfolding package_block take_requests
package-Numbered c n k = omega (
  arith,
  n k,
  total-append (numbered k) c.packaged (take (end_num (length c.pool)) c.pool),
  total-append (numbered k) (take (end_num (length c.pool)) c.pool)
      (drop (end_num (length c.pool)) c.pool),
  ap (total (numbered k)) (take-append-drop (end_num (length c.pool)) c.pool),
)

numbers_kept :
    (c : Handler) (es : List Event)
    → c.next_sn + calls_in es < 2 ^ 64
    → Numbered c
    → Numbered (run c es) × ((run c es).next_sn ≡ c.next_sn + calls_in es)
unfolding run step
numbers_kept c [] h n = (n, omega arith)
numbers_kept c (call req ∷ es) h n =
    let next = draw_sn-next c req (omega arith) in
    let (m, e) =
      numbers_kept (draw_sn c req) es (omega (arith, next))
        (draw_sn-Numbered c req (omega arith) n) in
    (m, omega (arith, e, next))
numbers_kept c (end_call i ∷ es) h n =
    let same = finish-next c i in
    let (m, e) = numbers_kept (finish c i) es (omega (arith, same)) (finish-Numbered c i n) in
    (m, omega (arith, e, same))
numbers_kept c (propose ∷ es) h n =
    let same = package-next c in
    let (m, e) = numbers_kept (package_block c) es (omega (arith, same)) (package-Numbered c n) in
    (m, omega (arith, e, same))

-- Through fewer than 2^64 calls of `NewRequest`, in any interleaving of their halves with one another
-- and with the packaging of blocks: each serial number below the number of calls belongs to exactly
-- one request, which is in a call, in the pool or packaged, and no other number to any.
pub numbers_once :
    (name : GoString) (es : List Event)
    → calls_in es < 2 ^ 64
    → (k : ℕ) → holders (run (new_handler name) es) k ≡ bit (ltb k (calls_in es))
numbers_once name es h k =
    let (n, e) = numbers_kept (new_handler name) es (omega arith) (λ j. ground arith) in
    ground (arith, n k)
