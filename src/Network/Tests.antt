-- ===== src/Network/Tests.antt =====
-- A network with a cluster of one node, which has its certificate.
use simple_ft.Base.{
  bytes_discrete, get, string_key, ap, ◌≡◌, refl, inl, GoString, codes, Bool, true, List, [], ◌∷◌,
  ◌++◌, some, arith,
}
use simple_ft.Data.{vote, BlockWithQc}
use simple_ft.Config.{Config}
use simple_ft.Hashing.{hash_key, plain_vote}
use simple_ft.Node.Sample.{
  program, text_of, ballot, toy, alone, first, votes, signed, turns, signed_ballot,
}
use simple_ft.Node.Tasks.{Event}
use simple_ft.Network.{Network, start_network, run_network, step_network, Unforged}
use simple_ft.Network.Agreement.{HasCertificate, IsConfigured, certificates_agree}

abbrev confs : GoString → Config
confs name = alone

abbrev every : GoString → Bool
every name = true

abbrev at_node : List Event → List (GoString × Event)
at_node [] = []
at_node (e ∷ es) = (codes "n0", e) ∷ at_node es

-- A block is proposed, voted for and certified.
abbrev certifying : List (GoString × Event)
certifying = at_node (votes ++ signed (vote signed_ballot) ∷ turns 3 [])

abbrev net : Network
net = run_network toy (start_network toy confs) certifying

abbrev certificate : BlockWithQc
certificate = record { block = first; qc = some (1 ∷ text_of (plain_vote ballot)) }

has_certificate : HasCertificate (net (codes "n0")) certificate
unfolding run_network step_network program
has_certificate = inl (0, refl)

one_node : IsConfigured toy every confs (codes "n0" ∷ [])
unfolding get
one_node = record {
  some_node = omega arith;
  few_faulty = omega arith;
  whole_cluster = λ a h. refl;
  keys_of_cluster = λ a b h there. elim (bytes_discrete (codes "n0") b) [
    | yes e ↦ (0, ap some e)
    | no e ↦ absurd (there (ground (arith, e)))
  ];
}

unforged : Unforged toy every (start_network toy confs) certifying
unfolding step_network program
unforged = (
  tt,
  (
    λ right good. (0, refl),
    (
      tt,
      (
        tt,
        (tt, (tt, (tt, (tt, (tt, (tt, (tt, (λ right good. (1, refl), (tt, (tt, (tt, tt))))))))))),
      ),
    ),
  ),
)

certificates_agree_example : hash_key toy first ≡ hash_key toy first
unfolding run_network
certificates_agree_example =
    certificates_agree toy every confs (codes "n0" ∷ []) certifying [] (codes "n0") (codes "n0")
      certificate certificate one_node unforged tt refl refl has_certificate has_certificate refl
