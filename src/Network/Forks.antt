-- ===== src/Network/Forks.antt =====
-- A cluster of two nodes that both follow the code, without a forged signature, whose committed
-- chains differ: one commits the block that is certified at height 1, the other commits the other
-- block of height 1 as the parent of the one that is certified at height 2.
use simple_ft.Base.{
  ◌⊎◌, get, nat_key, ℕ, ◌+◌, pos, ◌≡◌, refl, GoString, codes, bytes_discrete, ite, Bool, Occurs,
  Option, List, [], ◌∷◌, ◌++◌, none, some,
}
use simple_ft.Data.{Message, proposal, vote, Block, BlockWithQc, PlainVote}
use simple_ft.Config.{Config}
use simple_ft.Equality.{string_eq}
use simple_ft.Node.Broadcast.{author}
use simple_ft.Hashing.{message, plain_vote}
use simple_ft.Node.{genesis}
use simple_ft.Node.Proposing.{Chance}
use simple_ft.Node.Sample.{program, text_of, toy, alone, lucky, turns}
use simple_ft.Node.Tasks.{Event, receive, propose}
use simple_ft.Node.Ballots.{Justified}
use simple_ft.Network.Justified.{committed-Justified}
use simple_ft.Network.Vouched.{Vouched, quorum_of}
use simple_ft.Network.{Network, start_network, run_network, step_network, Unforged}

abbrev a : GoString
a = codes "a"

abbrev b : GoString
b = codes "b"

abbrev secret : GoString → ℕ
secret name = ite (bytes_discrete a name) 7 8

abbrev confs : GoString → Config
confs name = record alone {
  name = name;
  cluster_addr = (a, codes "h") ∷ (b, codes "h") ∷ [];
  cluster_port = (a, pos 80) ∷ (b, pos 81) ∷ [];
  public_key_map = (a, some (7 ∷ [])) ∷ (b, some (8 ∷ [])) ∷ [];
  private_key = some (secret name ∷ []);
  ts_private_key = record { i = 0; v = secret name };
}

abbrev on : GoString → Block → Block
on name parent = record {
  proposer = name;
  height = parent.height + 1;
  previous_hash = some (text_of (message (proposal parent)));
  cmds = some [];
}

abbrev ballot : Block → PlainVote
ballot block = record {
  block_hash = some (text_of (message (proposal block)));
  block_height = block.height;
  opinion = Bool.true;
}

abbrev vote_of : GoString → Block → Message
vote_of name block = vote (record {
  plain_vote = ballot block;
  sender = name;
  partial_sig = some (secret name ∷ text_of (plain_vote (ballot block)));
})

-- A message of a node arrives at another, which runs its goroutines.
abbrev at_node : GoString → List Event → List (GoString × Event)
at_node name [] = []
at_node name (e ∷ es) = (name, e) ∷ at_node name es

abbrev arrive : GoString → Message → GoString → List (GoString × Event)
arrive from msg to =
    (to, receive msg (some (secret from ∷ text_of (message msg)))) ∷ at_node to (turns 12 [])

-- The second of the candidates is chosen.
abbrev unlucky : Chance
unlucky = record { order = λ m. m; intn = λ n. 1 }

abbrev left : Block
left = on a genesis

abbrev right : Block
right = on b genesis

abbrev above : Block
above = on b right

-- Messages arrive one after another: who sends, what, and at whom.
abbrev deliver : List (GoString × (Message × GoString)) → List (GoString × Event)
deliver [] = []
deliver ((from, (msg, to)) ∷ rest) = arrive from msg to ++ deliver rest

abbrev both_propose : Chance → Chance → List (GoString × Event)
both_propose at_a at_b =
    (a, propose at_a (λ seed. Bool.true)) ∷ (b, propose at_b (λ seed. Bool.true)) ∷ []

abbrev from_a : Message → GoString → GoString × (Message × GoString)
from_a msg to = (a, (msg, to))

abbrev from_b : Message → GoString → GoString × (Message × GoString)
from_b msg to = (b, (msg, to))

-- Both nodes vote for the block of `a`.
abbrev first_blocks : List (GoString × (Message × GoString))
first_blocks =
    from_a (proposal left) a
    ∷ from_a (proposal left) b
    ∷ from_b (proposal right) a
    ∷ from_b (proposal right) b
    ∷ []

-- Each has proposed on its own block, and the block of `b` arrives first. The votes for height 1
-- arrive at `a` before those for height 2, and those for height 2 at `b`.
abbrev next_messages : List (GoString × (Message × GoString))
next_messages =
    from_b (proposal above) a
    ∷ from_b (proposal above) b
    ∷ from_a (vote_of a left) a
    ∷ from_b (vote_of b left) a
    ∷ from_a (vote_of a above) a
    ∷ from_b (vote_of b above) a
    ∷ from_a (vote_of a above) b
    ∷ from_b (vote_of b above) b
    ∷ []

abbrev script : List (GoString × Event)
script =
    both_propose lucky lucky
    ++ deliver first_blocks
    ++ both_propose lucky unlucky
    ++ deliver next_messages

abbrev net : Network
net = run_network toy (start_network toy confs) script

abbrev map_block : Option BlockWithQc → Option Block
map_block none = none
map_block (some bqc) = some bqc.block

abbrev every : GoString → Bool
every name = Bool.true

Unforged-append :
    (state : Network) (es fs : List (GoString × Event))
    → Unforged toy every state es
    → Unforged toy every (run_network toy state es) fs
    → Unforged toy every state (es ++ fs)
unfolding run_network
Unforged-append state [] fs u v = v
Unforged-append state (e ∷ es) fs u v =
    (u.0, Unforged-append (step_network toy state e) es fs u.1 v)

-- Each message has been broadcast by its author when it arrives.
abbrev Broadcast : Network → List (GoString × (Message × GoString)) → Type 0
Broadcast state [] = Unit
Broadcast state ((from, (msg, to)) ∷ rest) =
    Occurs msg (state (author msg)).sent
    × Broadcast (run_network toy state (arrive from msg to)) rest

deliver-Unforged :
    (state : Network) (msgs : List (GoString × (Message × GoString)))
    → Broadcast state msgs
    → Unforged toy every state (deliver msgs)
unfolding run_network
deliver-Unforged state [] h = tt
deliver-Unforged state ((from, (msg, to)) ∷ rest) (there, later) =
    Unforged-append state (arrive from msg to) (deliver rest)
      (
        λ right good. there,
        (tt, (tt, (tt, (tt, (tt, (tt, (tt, (tt, (tt, (tt, (tt, (tt, tt)))))))))))),
      )
      (deliver-Unforged (run_network toy state (arrive from msg to)) rest later)

abbrev begin : Network
begin = run_network toy (start_network toy confs) (both_propose lucky lucky)

abbrev next : Network
next = run_network toy (run_network toy begin (deliver first_blocks)) (both_propose lucky unlucky)

first-Broadcast : Broadcast begin first_blocks
unfolding run_network step_network program
first-Broadcast = ((0, refl), ((0, refl), ((0, refl), ((0, refl), tt))))

next-Broadcast : Broadcast next next_messages
unfolding run_network step_network program
next-Broadcast = (
  (2, refl),
  ((2, refl), ((1, refl), ((1, refl), ((3, refl), ((3, refl), ((3, refl), ((3, refl), tt))))))),
)

unforged : Unforged toy every (start_network toy confs) script
unfolding run_network
unforged =
    Unforged-append (start_network toy confs) (both_propose lucky lucky)
      (deliver first_blocks ++ both_propose lucky unlucky ++ deliver next_messages) (tt, (tt, tt))
      (Unforged-append begin (deliver first_blocks)
        (both_propose lucky unlucky ++ deliver next_messages)
        (deliver-Unforged begin first_blocks first-Broadcast)
        (Unforged-append (run_network toy begin (deliver first_blocks)) (both_propose lucky unlucky)
          (deliver next_messages) (tt, (tt, tt))
          (deliver-Unforged next next_messages next-Broadcast)))

-- The two chains have the same height and different blocks at height 1.
chains_differ :
    ((net a).node.chain.height ≡ 2)
    × ((net b).node.chain.height ≡ 2)
    × (map_block (get 1 (net a).node.chain.blocks) ≡ some left)
    × (map_block (get 1 (net b).node.chain.blocks) ≡ some right)
    × (string_eq left.proposer right.proposer ≡ Bool.false)
unfolding run_network step_network program
chains_differ = (refl, refl, refl, refl, refl)

abbrev committed_right : BlockWithQc
committed_right = record { block = right; qc = some (2 ∷ text_of (plain_vote (ballot above))) }

-- The block of `b` has no votes, and is the parent of one that has.
committed-Justified_example :
    (right ≡ genesis)
    ⊎ Justified toy (Vouched toy every confs net b) (quorum_of toy every confs b) right
unfolding run_network step_network program
committed-Justified_example =
    committed-Justified toy every confs script b 1 committed_right unforged refl
