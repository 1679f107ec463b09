-- ===== src/Quorum.antt =====
-- The sizes of quorums: `NewNode` of core/node.go, and the threshold of config_gen/main.go.
mod Tests
use simple_ft.Base.{ℕ, ◌+◌, ◌-◌, ◌*◌, ◌/◌, ◌≤◌, ◌<◌, ◌≡◌, arith}

-- `int(math.Ceil(float64(2*n) / 3.0))`. The quotient in float64 rounds to no integer that it is
-- not for n below 2^51, so that this is the ceiling of the quotient.
unfoldable pub quorum_num : ℕ → ℕ
quorum_num n = (2 * n + 2) / 3

-- `nodeNumber - nodeNumber/3`, the threshold for which the shares are generated.
unfoldable pub num_t : ℕ → ℕ
num_t node_number = node_number - node_number / 3

-- The most faults that n nodes are to bear.
abbrev pub faults : ℕ → ℕ
faults n = (n - 1) / 3

-- The number of partial signatures that a node collects is the threshold of the shares that the
-- configuration tool deals out, for every number of nodes.
pub quorum_num-num_t : (n : ℕ) → quorum_num n ≡ num_t n
unfolding quorum_num num_t
quorum_num-num_t n = omega arith

-- With n > 0 nodes of which at most (n - 1) / 3 are faulty: the honest ones are a quorum, two
-- quorums of the n nodes have more nodes in common than there are faulty ones, and a quorum is
-- positive and at most n.
pub quorum_num_bounds :
    (n : ℕ)
    → 0 < n
    → (quorum_num n + faults n ≤ n)
      × (n + faults n < quorum_num n + quorum_num n)
      × (0 < quorum_num n)
unfolding quorum_num
quorum_num_bounds n h = omega arith
