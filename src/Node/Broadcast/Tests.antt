-- ===== src/Node/Broadcast/Tests.antt =====
-- The sample node sends a block to two addresses, of which one does not answer.
use simple_ft.Base.{GoString, codes, List, [], ◌∷◌, ite, bytes_discrete}
use simple_ft.Node.Broadcast.{Link, no_conn, works}

abbrev cluster : List (GoString × GoString)
cluster = (codes "n0", codes "h") ∷ (codes "n1", codes "k") ∷ []

-- Only the node's own port 80 answers.
abbrev link : GoString → Link
link a = ite (bytes_discrete a (codes "h:80")) works no_conn
