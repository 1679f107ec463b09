-- ===== src/Network/Agreement.antt =====
-- No two nodes have certificates for different blocks of one height.
use simple_ft.Base.{
  ℕ, ◌≤◌, ◌<◌, ◌≡◌, ◌≢◌, sym, ap, subst, ◌∙◌, ◌⊎◌, inl, inr, GoString, get, nat_key, string_key,
  bytes_discrete, ℕ_discrete, Bool, true, not, List, none, some, All-get, All-get_elem, Occurs,
  total, total-two, bit, length, arith,
}
use simple_ft.Data.{vote, VoteWithPartialSig, BlockWithQc}
use simple_ft.Config.{Config}
use simple_ft.Hashing.{Primitives, hash_key}
use simple_ft.Quorum.{quorum_num, faults}
use simple_ft.Node.Votes.Laws.{vote_key}
use simple_ft.Node.OneVote.{vote_at, votes_once}
use simple_ft.Node.Tasks.{new_block_qc, commit_ancestors, System, Event, run_all, start}
use simple_ft.Node.Ballots.{Ballot, Quorate, Certified, TaskBacked}
use simple_ft.Network.{Network, start_network, run_network, Unforged}
use simple_ft.Network.Backing.{SystemBacked, Quorate-mono}
use simple_ft.Network.Quorums.{quorums_meet}
use simple_ft.Network.Vouched.{
  Vouched, Sound, start-Sound, run_network-Sound, run_network-Later, quorum_of,
}

-- A certificate that a node has made and not put into its chain yet.
abbrev pub HasCertificate : System → BlockWithQc → Type 0
HasCertificate s bqc =
    Occurs (new_block_qc bqc) s.tasks
    ⊎ (Occurs (commit_ancestors bqc) s.tasks
        ⊎ ((h : ℕ) × (get h s.node.pending_blocks_qc ≡ some bqc)))

HasCertificate-Certified :
    (p : Primitives) (Fact : VoteWithPartialSig → Type 0) (conf : Config) (q : ℕ) (s : System)
    (bqc : BlockWithQc)
    → SystemBacked p Fact conf q s
    → HasCertificate s bqc
    → Certified p Fact q bqc
HasCertificate-Certified p Fact conf q s bqc (b, h) (inl (k, e)) =
    All-get_elem (TaskBacked p Fact conf q) s.tasks k (new_block_qc bqc) h e
HasCertificate-Certified p Fact conf q s bqc (b, h) (inr (inl (k, e))) =
    All-get_elem (TaskBacked p Fact conf q) s.tasks k (commit_ancestors bqc) h e
HasCertificate-Certified p Fact conf q s bqc (b, h) (inr (inr (k, e))) =
    All-get (λ (e : ℕ × BlockWithQc). Certified p Fact q e.1) s.node.pending_blocks_qc k bqc
      b.certified e

-- The votes that a node has broadcast at one height are the same vote.
one_vote :
    (p : Primitives) (conf : Config) (es : List Event) (s : System) (v w : VoteWithPartialSig)
    → run_all p (start p conf) es ≡ some s
    → Occurs (vote v) s.sent
    → Occurs (vote w) s.sent
    → v.block_height ≡ w.block_height
    → v ≡ w
one_vote p conf es s v w e (j, f) (k, g) same = elim (ℕ_discrete j k) [
  | yes here ↦ ground (arith, here)
  | no apart ↦ absurd (
      ground (
        arith,
        same,
        votes_once p conf es s v.block_height e,
        total-two (vote_at v.block_height) s.sent j k (vote v) (vote w) f g apart,
      ))
]

module _ (p : Primitives) (honest : GoString → Bool) (confs : GoString → Config)
    (cluster : List GoString) where
  -- The nodes that follow the code are configured for the cluster.
  pub record IsConfigured : Type 0 where
    pub some_node : 0 < length cluster
    pub few_faulty : total (λ a. bit (not (honest a))) cluster ≤ faults (length cluster)
    pub whole_cluster :
        (a : GoString) → honest a ≡ true → length (confs a).cluster_addr ≡ length cluster
    pub keys_of_cluster :
        (a b : GoString)
        → honest a ≡ true
        → get b (confs a).public_key_map ≢ none
        → Occurs b cluster

  quorates_agree :
      (net : Network) (i j : GoString) (h : ℕ) (hash other : GoString)
      → IsConfigured
      → Sound p honest confs net
      → honest i ≡ true
      → honest j ≡ true
      → Quorate (Vouched p honest confs net i) (quorum_of p honest confs i) h hash
      → Quorate (Vouched p honest confs net j) (quorum_of p honest confs j) h other
      → hash ≢ other
      → ⊥
  quorates_agree net i j h hash other set s ih jh q r apart =
      quorums_meet q.senders r.senders cluster honest set.some_node set.few_faulty q.once_each
        r.once_each
        (λ a there.
          let (v, from, at, for, (known, sent)) = q.each a there in
          subst (λ x. Occurs x cluster) from (set.keys_of_cluster i v.sender ih known))
        (λ a there.
          let (v, from, at, for, (known, sent)) = r.each a there in
          subst (λ x. Occurs x cluster) from (set.keys_of_cluster j v.sender jh known))
        (subst (λ k. quorum_num k ≤ length q.senders) (set.whole_cluster i ih) q.enough)
        (subst (λ k. quorum_num k ≤ length r.senders) (set.whole_cluster j jh) r.enough)
        (λ a good x y. twice a good (q.each a (ground arith)) (r.each a (ground arith)))
    where
      twice :
          (a : GoString)
          → honest a ≡ true
          → Ballot (Vouched p honest confs net i) h hash a
          → Ballot (Vouched p honest confs net j) h other a
          → ⊥
      twice a good (v, from, at, for, (known, sent)) (w, from', at', for', (known', sent')) =
          let (es, reach) = s.reached a in
          let same =
            one_vote p (confs a) es (net a) v w reach
              (subst (λ x. Occurs (vote v) (net x).sent) from (sent (ap honest from ∙ good)))
              (subst (λ x. Occurs (vote w) (net x).sent) from' (sent' (ap honest from' ∙ good)))
              (at ∙ sym at') in
          apart (sym for ∙ ap vote_key same ∙ for')

  -- Agreement: whatever the faulty nodes send, however messages are delayed, lost, repeated and
  -- reordered, and however the goroutines of the nodes run: if two nodes that follow the code have
  -- certificates for one height, at two times of a run, then the blocks have the same hash. This
  -- holds if at most (n - 1) / 3 of the n nodes are faulty, no signature of the others is forged,
  -- and the others are configured for the n nodes.
  pub certificates_agree :
      (es later : List (GoString × Event)) (i j : GoString) (a b : BlockWithQc)
      → IsConfigured
      → Unforged p honest (start_network p confs) es
      → Unforged p honest (run_network p (start_network p confs) es) later
      → honest i ≡ true
      → honest j ≡ true
      → HasCertificate (run_network p (start_network p confs) es i) a
      → HasCertificate (run_network p (run_network p (start_network p confs) es) later j) b
      → a.height ≡ b.height
      → hash_key p a.block ≡ hash_key p b.block
  certificates_agree es later i j a b set u w ih jh ha hb level =
      elim (bytes_discrete (hash_key p a.block) (hash_key p b.block)) [
        | yes same ↦ same
        | no apart ↦ absurd (
            quorates_agree last i j b.height (hash_key p a.block) (hash_key p b.block) set end ih jh
              (subst
                (λ h.
                  Quorate (Vouched p honest confs last i) (quorum_of p honest confs i) h
                    (hash_key p a.block))
                level
                (Quorate-mono (Vouched p honest confs net i) (Vouched p honest confs last i)
                  (λ v h. (
                    h.0,
                    λ x. run_network-Later p honest confs net later v.sender (vote v) (h.1 x),
                  ))
                  _ a.height (hash_key p a.block)
                  (HasCertificate-Certified p _ (confs i) _ (net i) a (mid.backed i) ha)))
              (HasCertificate-Certified p _ (confs j) _ (last j) b (end.backed j) hb) apart)
      ]
    where
      net : Network
      net = run_network p (start_network p confs) es

      last : Network
      last = run_network p net later

      mid : Sound p honest confs net
      mid =
          run_network-Sound p honest confs (start_network p confs) es (start-Sound p honest confs) u

      end : Sound p honest confs last
      end = run_network-Sound p honest confs net later mid w
