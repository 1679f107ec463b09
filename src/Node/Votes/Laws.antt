-- ===== src/Node/Votes/Laws.antt =====
-- What a stored vote changes, and the votes that `extractPartialSigs` takes.
use simple_ft.Base.{
  zero, suc, refl, sym, subst, ap, [], ◌∷◌, some, map, IsMap, put-IsMap, if_pos, if_neg, ℕ, ◌≡◌,
  GoString, Slice, elems, encode_to_string, Map, get, put, get-put, get_nested, nat_key, string_key,
  none, arith, take, ite, ℕ_discrete, bytes_discrete,
}
use simple_ft.Data.{VoteWithPartialSig}
use simple_ft.Node.{Node}
use simple_ft.Node.Votes.{inner, handle_vote_msg, votes_of, partial_sigs_loop}

abbrev pub vote_key : VoteWithPartialSig → GoString
vote_key v = encode_to_string (elems v.block_hash)

-- After `handleVoteMsg` the votes for the vote's height and hash are those before with the sender's
-- signature put in, and the votes for any other height or hash are those before.
pub votes_of-handle :
    (n : Node) (v : VoteWithPartialSig) (h : ℕ) (hash : GoString)
    → votes_of (handle_vote_msg n v) h hash
      ≡ ite
          (ℕ_discrete v.block_height h)
          (ite
            (bytes_discrete (vote_key v) hash)
            (put v.sender v.partial_sig (votes_of n h hash))
            (votes_of n h hash))
          (votes_of n h hash)
unfolding votes_of handle_vote_msg get_nested get
votes_of-handle n v h hash = ground (
  arith,
  get-put v.block_height h (put (vote_key v) senders par_sigs) n.partial_sigs,
  get-put (vote_key v) hash senders par_sigs,
)
  where
    par_sigs : Map GoString (Map GoString (Slice ℕ))
    par_sigs = inner (get v.block_height n.partial_sigs)

    senders : Map GoString (Slice ℕ)
    senders = put v.sender v.partial_sig (inner (get (vote_key v) par_sigs))

-- The loop gives the signatures of the first votes.
pub partial_sigs_loop-map :
    (num : ℕ) (votes : Map GoString (Slice ℕ))
    → partial_sigs_loop num votes ≡ map (λ v. v.1) (take num votes)
unfolding partial_sigs_loop
partial_sigs_loop-map zero [] = refl
partial_sigs_loop-map (suc num) [] = refl
partial_sigs_loop-map zero (v ∷ votes) = refl
partial_sigs_loop-map (suc num) ((sender, sig) ∷ votes) =
    ap (◌∷◌ sig) (partial_sigs_loop-map num votes)

-- The first votes are votes, and those of senders that are told apart.
get-take-none :
    (num : ℕ) (a : GoString) (votes : Map GoString (Slice ℕ))
    → get a votes ≡ none
    → get a (take num votes) ≡ none
unfolding get
get-take-none zero a votes e = refl
get-take-none (suc num) a [] e = e
get-take-none (suc num) a ((b, sig) ∷ votes) e = ground (arith, get-take-none num a votes)

pub get-take-some :
    (num : ℕ) (a : GoString) (sig : Slice ℕ) (votes : Map GoString (Slice ℕ))
    → get a (take num votes) ≡ some sig
    → get a votes ≡ some sig
unfolding get
get-take-some zero a sig votes e = cc
get-take-some (suc num) a sig [] e = e
get-take-some (suc num) a sig ((b, other) ∷ votes) e = ground (arith, get-take-some num a sig votes)

pub take-IsMap : (num : ℕ) (votes : Map GoString (Slice ℕ)) → IsMap votes → IsMap (take num votes)
take-IsMap zero votes h = tt
take-IsMap (suc num) [] h = tt
take-IsMap (suc num) ((b, sig) ∷ votes) h =
    (get-take-none num b votes h.0, take-IsMap num votes h.1)

-- A vote that is stored leaves one signature for each sender.
pub handle_vote_msg-IsMap :
    (n : Node) (v : VoteWithPartialSig) (h : ℕ) (hash : GoString)
    → IsMap (votes_of n h hash)
    → IsMap (votes_of (handle_vote_msg n v) h hash)
handle_vote_msg-IsMap n v h hash proper =
    subst IsMap (sym (votes_of-handle n v h hash)) (elim (ℕ_discrete v.block_height h) [
      | no e ↦ rw (if_neg _ e) proper
      | yes e ↦ rw (if_pos _ e) (elim (bytes_discrete (vote_key v) hash) [
        | no d ↦ rw (if_neg _ d) proper
        | yes d ↦ rw (if_pos _ d) (put-IsMap v.sender v.partial_sig (votes_of n h hash) proper)
      ])
    ])
