-- ===== src/Transport/Wire/Tests.antt =====
-- Messages on the wire over a toy codec.
use simple_ft.Base.{
  ℕ, zero, suc, ◌≡◌, ◌≢◌, ◌≤◌, ◌<◌, refl, Slice, true, List, [], ◌∷◌, ◌++◌, take, Option, none,
  some, length, arith,
}
use simple_ft.Data.{Message, proposal, vote, sortition, new_sortition_msg}
use simple_ft.Transport.Wire.{MsgWithSig, Codec, failed, stuck, frame, handle_msg, handle_conn}
use simple_ft.Transport.Wire.Delivered.{ReadsBack, frames, handle_conn-frames, handle_conn_ends}

-- A message of sortition is its height and its round, a signature is its first byte.
abbrev written : Message → List ℕ
written (sortition s) = s.height ∷ s.round ∷ []
written (proposal b) = []
written (vote v) = []

abbrev read_two : ℕ → List ℕ → Option (Message × List ℕ)
read_two t (h ∷ r ∷ rest) = some (sortition (new_sortition_msg [] h r), rest)
read_two t (h ∷ []) = none
read_two t [] = none

abbrev signed : Slice ℕ → List ℕ
signed (some (b ∷ bs)) = b ∷ []
signed (some []) = 0 ∷ []
signed none = 0 ∷ []

abbrev read_one : List ℕ → Option (Slice ℕ × List ℕ)
read_one [] = none
read_one (b ∷ rest) = some (some (b ∷ []), rest)

abbrev pub toy_codec : Codec
toy_codec = record {
  encode_msg = written;
  encode_sig = signed;
  decode_msg = read_two;
  decode_sig = read_one;
}

abbrev pub drawn : ℕ → MsgWithSig
drawn h = record { msg = sortition (new_sortition_msg [] h 1); sig = some (9 ∷ []) }

-- A frame that has come in whole, and two of the four bytes of another.
received :
    handle_conn toy_codec 9 (λ i. true) 0 (2 ∷ 5 ∷ 1 ∷ 9 ∷ 2 ∷ 6 ∷ []) ≡ (drawn 5 ∷ [], failed)
unfolding handle_conn handle_msg
received = refl

cut_two : (h k : ℕ) → k < 2 → read_two 2 (take k (h ∷ 1 ∷ [])) ≡ none
cut_two h zero l = refl
cut_two h (suc zero) l = refl
cut_two h (suc (suc k)) l = absurd (omega arith)

cut_one : (k : ℕ) → k < 1 → read_one (take k (9 ∷ [])) ≡ none
cut_one zero l = refl
cut_one (suc k) l = absurd (omega arith)

pub drawn-ReadsBack : (h : ℕ) → ReadsBack toy_codec (drawn h)
drawn-ReadsBack h = record {
  reads_msg = λ rest. refl;
  reads_sig = λ rest. refl;
  cut_msg = λ k l. cut_two h k l;
  cut_sig = λ k l. cut_one k l;
}

read_two_shorter :
    (t : ℕ) (bs : List ℕ) (m : Message) (rest : List ℕ)
    → read_two t bs ≡ some (m, rest)
    → length rest ≤ length bs
read_two_shorter t [] m rest e = cc
read_two_shorter t (h ∷ []) m rest e = cc
read_two_shorter t (h ∷ r ∷ bs) m rest e = ground arith

read_one_shorter :
    (bs : List ℕ) (s : Slice ℕ) (rest : List ℕ)
    → read_one bs ≡ some (s, rest)
    → length rest ≤ length bs
read_one_shorter [] s rest e = cc
read_one_shorter (b ∷ bs) s rest e = ground arith

abbrev stream : List ℕ
stream = frames toy_codec (drawn 5 ∷ drawn 6 ∷ []) ++ take 3 (frame toy_codec (drawn 7))

handle_conn-frames_example :
    ((handle_conn toy_codec 20 (λ i. true) 0 stream).0 ≡ drawn 5 ∷ drawn 6 ∷ [])
    × ((handle_conn toy_codec 20 (λ i. true) 0 stream).1 ≢ stuck)
unfolding frame
handle_conn-frames_example =
    handle_conn-frames toy_codec (drawn 5 ∷ drawn 6 ∷ []) (drawn 7) 3 20 0 (λ i. true)
      (drawn-ReadsBack 5, (drawn-ReadsBack 6, tt)) (drawn-ReadsBack 7) (λ j. refl) (omega arith)
      (omega arith)

handle_conn_ends_example :
    ((handle_conn toy_codec 9 (λ i. true) 0 (2 ∷ 5 ∷ 1 ∷ 9 ∷ 7 ∷ [])).1 ≢ stuck)
    × (length (handle_conn toy_codec 9 (λ i. true) 0 (2 ∷ 5 ∷ 1 ∷ 9 ∷ 7 ∷ [])).0 ≤ 5)
handle_conn_ends_example =
    handle_conn_ends toy_codec 9 0 (λ i. true) (2 ∷ 5 ∷ 1 ∷ 9 ∷ 7 ∷ []) read_two_shorter
      read_one_shorter (omega arith)
