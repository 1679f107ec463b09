-- ===== src/Network/Vouched.antt =====
-- Every run of the network keeps behind each stored vote a broadcast of its sender.
use simple_ft.Base.{
  Slice, ℕ, ◌≡◌, ◌≢◌, refl, subst, GoString, bytes_discrete, get, string_key, Bool, Option-cases,
  inl, inr, true, List, [], ◌∷◌, ◌++◌, Option, none, some, Occurs, length, if_pos, if_neg, arith,
}
use simple_ft.Data.{Message, proposal, vote, sortition, VoteWithPartialSig}
use simple_ft.Config.{Config}
use simple_ft.Hashing.{Primitives}
use simple_ft.Quorum.{quorum_num}
use simple_ft.Node.{Node}
use simple_ft.Node.Broadcast.{author, verify_sig_ed25519}
use simple_ft.Node.Tasks.{
  System, Event, receive, run, request, propose, handler, step, run_all, start,
}
use simple_ft.Node.Runs.{Then→}
use simple_ft.Node.Ballots.{TaskBacked}
use simple_ft.Network.{
  Network, replace, start_network, step_network, run_network, Authentic, Unforged,
}
use simple_ft.Network.Backing.{
  SystemBacked, SystemBacked-mono, Brings, step-Backed, start-Backed, sent-kept,
}

known_author :
    (p : Primitives) (n : Node) (msg : Message) (sig : Slice ℕ) (peer : GoString)
    → verify_sig_ed25519 p n peer msg sig ≡ some true
    → get peer n.public_key_map ≢ none
unfolding verify_sig_ed25519
known_author p n msg sig peer e = ground arith

run_all-snoc :
    (p : Primitives) (s t u : System) (es : List Event) (e : Event)
    → run_all p s es ≡ some t
    → step p t e ≡ some u
    → run_all p s (es ++ e ∷ []) ≡ some u
unfolding run_all
run_all-snoc p s t u [] e r f = ground arith
run_all-snoc p s t u (d ∷ es) e r f = elim (Option-cases (step p s d)) [
  | inl stops ↦ absurd (ground arith)
  | inr (v, next) ↦ rw (next, run_all) (run_all-snoc p v t u es e (ground arith) f)
]

module _ (p : Primitives) (honest : GoString → Bool) (confs : GoString → Config) where
  -- The sender is known to the node, and if it follows the code it has broadcast the vote.
  abbrev pub Vouched : Network → GoString → VoteWithPartialSig → Type 0
  Vouched net name v =
      (get v.sender (confs name).public_key_map ≢ none)
      × (honest v.sender ≡ true → Occurs (vote v) (net v.sender).sent)

  abbrev pub quorum_of : GoString → ℕ
  quorum_of name = quorum_num (length (confs name).cluster_addr)

  pub record Sound (net : Network) : Type 0 where
    pub backed :
        (name : GoString)
        → SystemBacked p (Vouched net name) (confs name) (quorum_of name) (net name)
    pub reached :
        (name : GoString)
        → (es : List Event) × (run_all p (start p (confs name)) es ≡ some (net name))

  -- What has been broadcast in the one is so in the other.
  abbrev pub Later : Network → Network → Type 0
  Later net next =
      (name : GoString) (msg : Message) → Occurs msg (net name).sent → Occurs msg (next name).sent

  replace-is :
      (S : GoString → System → Type 0) (name : GoString) (s : System) (net : Network)
      → S name s
      → ((other : GoString) → S other (net other))
      → (other : GoString) → S other (replace name s net other)
  replace-is S name s net new old other = elim (bytes_discrete name other) [
    | yes e ↦ rw (if_pos _ e) (subst (λ a. S a s) e new)
    | no e ↦ rw (if_neg _ e) (old other)
  ]

  step_network-Later : (net : Network) (e : GoString × Event) → Later net (step_network p net e)
  unfolding step_network
  step_network-Later net (name, e) other msg h = elim (Option-cases (step p (net name) e)) [
    | inl stops ↦ rw (stops, step_network) h
    | inr (s, goes) ↦
        rw (goes, step_network)
          (replace-is (λ a t. Occurs msg (net a).sent → Occurs msg t.sent) name s net
            (λ before.
              Then→ (λ t. Occurs msg t.sent) (step p (net name) e) goes
                (sent-kept p msg (net name) e before))
            (λ a before. before) other h)
  ]

  -- A message that arrives brings what its signature says.
  arrives-Vouched :
      (net : Network) (name : GoString) (msg : Message) (sig : Slice ℕ)
      → Sound net
      → Authentic p honest net (name, receive msg sig)
      → verify_sig_ed25519 p (net name).node (author msg) msg sig ≡ some true
      → TaskBacked p (Vouched net name) (confs name) (quorum_of name) (handler msg)
  arrives-Vouched net name (vote v) sig s authentic right = (
    subst (λ (k : Config). get v.sender k.public_key_map ≢ none) (s.backed name).0.same_config
        (known_author p (net name).node (vote v) sig v.sender right),
    authentic right,
  )
  arrives-Vouched net name (proposal b) sig s authentic right = tt
  arrives-Vouched net name (sortition m) sig s authentic right = tt

  Vouched-Brings :
      (net : Network) (name : GoString) (e : Event)
      → Sound net
      → Authentic p honest net (name, e)
      → Brings p (Vouched net name) (confs name) (quorum_of name) (net name) e
  Vouched-Brings net name (receive msg sig) s authentic =
      arrives-Vouched net name msg sig s authentic
  Vouched-Brings net name (run i order) s authentic = tt
  Vouched-Brings net name (request r) s authentic = tt
  Vouched-Brings net name (propose c win) s authentic = tt

  step_network-Sound :
      (net : Network) (e : GoString × Event)
      → Sound net
      → Authentic p honest net e
      → Sound (step_network p net e)
  unfolding step_network
  step_network-Sound net (name, e) s authentic = elim (Option-cases (step p (net name) e)) [
    | inl stops ↦ rw (stops, step_network) s
    | inr (t, goes) ↦
        let kept : Later net (replace name t net) =
          subst
            (λ (o : Option System). Later net (elim o [ none ↦ net | some u ↦ replace name u net ]))
            goes (step_network-Later net (name, e)) in
        let vouched : (other : GoString) (v : VoteWithPartialSig)
            → Vouched net other v
            → Vouched (replace name t net) other v =
          λ other v h. (h.0, λ x. kept v.sender (vote v) (h.1 x)) in
        rw (goes, step_network)
          (record {
            backed =
                replace-is
                  (λ a u. SystemBacked p (Vouched (replace name t net) a) (confs a) (quorum_of a) u)
                  name t net
                  (SystemBacked-mono p _ _ (confs name) (quorum_of name) (vouched name) t (
                    Then→ _ (step p (net name) e) goes (
                      step-Backed p _ (confs name) (quorum_of name) (net name) e (s.backed name)
                        (Vouched-Brings net name e s authentic))))
                  (λ a.
                    SystemBacked-mono p _ _ (confs a) (quorum_of a) (vouched a) (net a)
                      (s.backed a));
            reached =
                replace-is (λ a u. (es : List Event) × (run_all p (start p (confs a)) es ≡ some u))
                  name t net
                  (let (es, before) = s.reached name in
                    (es ++ e ∷ [], run_all-snoc p _ (net name) t es e before goes))
                  s.reached;
          })
  ]

  pub start-Sound : Sound (start_network p confs)
  unfolding run_all
  start-Sound = record {
    backed = λ name. start-Backed p _ (confs name) (quorum_of name) refl;
    reached = λ name. ([], refl);
  }

  pub run_network-Sound :
      (net : Network) (es : List (GoString × Event))
      → Sound net
      → Unforged p honest net es
      → Sound (run_network p net es)
  unfolding run_network
  run_network-Sound net [] s u = s
  run_network-Sound net (e ∷ es) s (authentic, u) =
      run_network-Sound (step_network p net e) es (step_network-Sound net e s authentic) u

  pub run_network-Later :
      (net : Network) (es : List (GoString × Event)) → Later net (run_network p net es)
  unfolding run_network
  run_network-Later net [] name msg h = h
  run_network-Later net (e ∷ es) name msg h =
      run_network-Later (step_network p net e) es name msg (step_network-Later net e name msg h)
