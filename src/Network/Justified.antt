-- ===== src/Network/Justified.antt =====
-- What the nodes of a network commit.
use simple_ft.Base.{ℕ, ◌≡◌, ◌⊎◌, GoString, Bool, All-get, get, nat_key, List, some}
use simple_ft.Data.{BlockWithQc}
use simple_ft.Config.{Config}
use simple_ft.Hashing.{Primitives}
use simple_ft.Node.{genesis}
use simple_ft.Node.Ballots.{Justified, Rightful}
use simple_ft.Node.Tasks.{Event}
use simple_ft.Network.{start_network, run_network, Unforged}
use simple_ft.Network.Vouched.{Vouched, start-Sound, run_network-Sound, quorum_of}

-- If no signature of the nodes that follow the code is forged in a run: every block in the committed
-- chain of a node is the first block, or one that a quorum of senders known to the node has voted
-- for, or one whose hash such a block names as its parent's, and so on down; and of these senders,
-- those that follow the code have broadcast their votes.
pub committed-Justified :
    (p : Primitives) (honest : GoString → Bool) (confs : GoString → Config)
    (es : List (GoString × Event)) (i : GoString) (h : ℕ) (bqc : BlockWithQc)
    → Unforged p honest (start_network p confs) es
    → get h (run_network p (start_network p confs) es i).node.chain.blocks ≡ some bqc
    → (bqc.block ≡ genesis)
      ⊎ Justified p
          (Vouched p honest confs (run_network p (start_network p confs) es) i)
          (quorum_of p honest confs i)
          bqc.block
committed-Justified p honest confs es i h bqc u e =
    let sound =
      run_network-Sound p honest confs (start_network p confs) es (start-Sound p honest confs) u in
    All-get (Rightful p _ _) _ h bqc (sound.backed i).0.committed e
