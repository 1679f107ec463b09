-- ===== src/Quorum/Tests.antt =====
-- The sizes of quorums in a cluster of four.
use simple_ft.Base.{◌+◌, ◌≤◌, ◌<◌, ◌≡◌, arith}
use simple_ft.Quorum.{quorum_num, num_t, faults, quorum_num-num_t, quorum_num_bounds}

quorum_num-num_t_example : quorum_num 4 ≡ num_t 4
quorum_num-num_t_example = quorum_num-num_t 4

quorum_num_bounds_example :
    (quorum_num 4 + faults 4 ≤ 4)
    × (4 + faults 4 < quorum_num 4 + quorum_num 4)
    × (0 < quorum_num 4)
quorum_num_bounds_example = quorum_num_bounds 4 (omega arith)
