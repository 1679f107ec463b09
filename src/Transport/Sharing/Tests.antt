-- ===== src/Transport/Sharing/Tests.antt =====
-- The pool of connections on a run.
use simple_ft.Base.{
  ◌≢◌, arith, ℤ, pos, ◌≡◌, refl, GoString, codes, true, List, [], ◌∷◌, some, get, string_key, pick,
}
use simple_ft.Transport.{
  Sending, all_sent, fails_at, msg_step, get_conn, dial_conn, split_last, send_frame, release,
  return_conn, close,
}
use simple_ft.Transport.Wire.{handle_conn, stuck, frame}
use simple_ft.Transport.Wire.Tests.{toy_codec, drawn, drawn-ReadsBack}
use simple_ft.Transport.Sharing.Received.{sent_on, handle_conn-sent_on}
use simple_ft.Transport.Sharing.{Event, take_conn, send, give_back, shut_down, run, start, step}
use simple_ft.Transport.Sharing.Owned.{Owned}
use simple_ft.Transport.Sharing.Runs.{run-start-Owned}

abbrev peer : GoString
peer = codes "a:1"

-- Two connections to a peer; a message fails on the second, the first goes back and is taken again.
abbrev events : List Event
events =
    take_conn true peer
    ∷ take_conn true peer
    ∷ send 0 (fails_at msg_step 1) (drawn 7)
    ∷ send 0 all_sent (drawn 8)
    ∷ give_back 0
    ∷ take_conn true peer
    ∷ shut_down
    ∷ []

took_first : (run toy_codec (start (pos 2)) events).held ≡ 0 ∷ []
unfolding run get pick simple_ft.Transport.new_network_transport simple_ft.Base.ℕ_discrete
    simple_ft.Base.put simple_ft.Base.bytes_discrete
took_first = refl

run-start-Owned_example :
    Owned
      (run toy_codec (start (pos 2)) events).transport
      (run toy_codec (start (pos 2)) events).held
    × ((run toy_codec (start (pos 2)) events).transport.max_pool ≡ pos 2)
run-start-Owned_example = run-start-Owned toy_codec (pos 2) events

-- Two messages to a peer, the second of which is cut off.
abbrev failing : List Event
failing =
    take_conn true peer ∷ send 0 all_sent (drawn 7) ∷ send 0 (fails_at msg_step 2) (drawn 8) ∷ []

sent_seven : sent_on toy_codec (start (pos 2)) failing 0 ≡ drawn 7 ∷ []
unfolding sent_on pick step get simple_ft.Transport.new_network_transport simple_ft.Base.ℕ_discrete
sent_seven = refl

handle_conn-sent_on_example :
    ((handle_conn toy_codec 9
        (λ i. true)
        0
        ((run toy_codec (start (pos 2)) failing).transport.conns 0).sent).0
      ≡ sent_on toy_codec (start (pos 2)) failing 0)
    × ((handle_conn toy_codec 9
          (λ i. true)
          0
          ((run toy_codec (start (pos 2)) failing).transport.conns 0).sent).1
        ≢ stuck)
unfolding run frame pick step get simple_ft.Transport.new_network_transport
    simple_ft.Base.ℕ_discrete
handle_conn-sent_on_example =
    handle_conn-sent_on toy_codec (pos 2) failing 0 9 (λ i. true)
      (tt, (drawn-ReadsBack 7, ((drawn-ReadsBack 8, omega arith), tt))) (λ j. refl) (omega arith)
