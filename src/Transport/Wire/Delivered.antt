-- ===== src/Transport/Wire/Delivered.antt =====
-- What is sent is received.
use simple_ft.Base.{
  ℕ, zero, suc, ◌+◌, ◌-◌, ◌≤◌, ◌<◌, ◌≡◌, ◌≢◌, refl, ap, Slice, Bool, true, ltb, Bool-cases,
  Option-cases, inl, inr, ◌⊎◌, dec_lt, List, [], ◌∷◌, ◌++◌, take, take-append_le, take-append_past,
  append_assoc, length-append, none, some, length, All, arith,
}
use simple_ft.Data.{Message, tag, proposal, vote, sortition}
use simple_ft.Transport.Wire.{
  MsgWithSig, Codec, Handled, handled, at_end, refused, stuck, frame, handle_msg, handle_conn,
}

-- The codec reads back the message and its signature, whatever comes behind them, and refuses them
-- where they are cut off.
pub record ReadsBack (c : Codec) (m : MsgWithSig) : Type 0 where
  pub reads_msg :
      (rest : List ℕ) → c.decode_msg (tag m.msg) (c.encode_msg m.msg ++ rest) ≡ some (m.msg, rest)
  pub reads_sig : (rest : List ℕ) → c.decode_sig (c.encode_sig m.sig ++ rest) ≡ some (m.sig, rest)
  pub cut_msg :
      (k : ℕ)
      → k < length (c.encode_msg m.msg)
      → c.decode_msg (tag m.msg) (take k (c.encode_msg m.msg)) ≡ none
  pub cut_sig :
      (k : ℕ) → k < length (c.encode_sig m.sig) → c.decode_sig (take k (c.encode_sig m.sig)) ≡ none

abbrev pub frames : Codec → List MsgWithSig → List ℕ
frames c [] = []
frames c (m ∷ ms) = frame c m ++ frames c ms

tag-lt : (m : Message) → ltb (tag m) 3 ≡ true
tag-lt (proposal b) = refl
tag-lt (vote v) = refl
tag-lt (sortition s) = refl

length-frame : (c : Codec) (m : MsgWithSig) → 0 < length (frame c m)
unfolding frame
length-frame c m = omega arith

Handled-cases :
    (h : Handled)
    → ((h ≡ at_end) ⊎ (h ≡ refused)) ⊎ ((m : MsgWithSig) × (rest : List ℕ) × (h ≡ handled m rest))
Handled-cases (handled m rest) = inr (m, rest, refl)
Handled-cases at_end = inl (inl refl)
Handled-cases refused = inl (inr refl)

module _ (c : Codec) where
  handle_msg-frame :
      (m : MsgWithSig) (rest : List ℕ)
      → ReadsBack c m
      → handle_msg c (frame c m ++ rest) ≡ handled m rest
  unfolding handle_msg frame
  handle_msg-frame m rest d = ground (
    arith,
    tag-lt m.msg,
    append_assoc (c.encode_msg m.msg) (c.encode_sig m.sig) rest,
    d.reads_msg (c.encode_sig m.sig ++ rest),
    d.reads_sig rest,
  )

  -- A frame that is cut off is not handled.
  pub handle_msg-cut :
      (m : MsgWithSig) (k : ℕ)
      → ReadsBack c m
      → k < length (frame c m)
      → (handle_msg c (take k (frame c m)) ≡ at_end) ⊎ (handle_msg c (take k (frame c m)) ≡ refused)
  unfolding handle_msg frame
  handle_msg-cut m zero d h = inl refl
  handle_msg-cut m (suc k) d h = inr (elim (dec_lt k (length (c.encode_msg m.msg))) [
    | yes early ↦ ground (
      arith,
      tag-lt m.msg,
      take-append_le k (c.encode_msg m.msg) (c.encode_sig m.sig),
      d.cut_msg k early,
    )
    | no late ↦
        in_sig (k - length (c.encode_msg m.msg)) (omega (arith, late))
          (omega (arith, h, late, length-append (c.encode_msg m.msg) (c.encode_sig m.sig)))
  ])
    where
      in_sig :
          (j : ℕ)
          → k ≡ length (c.encode_msg m.msg) + j
          → j < length (c.encode_sig m.sig)
          → handle_msg c (take (suc k) (frame c m)) ≡ refused
      in_sig j e l = ground (
        arith,
        tag-lt m.msg,
        ap (λ i. take i (c.encode_msg m.msg ++ c.encode_sig m.sig)) e,
        take-append_past j (c.encode_msg m.msg) (c.encode_sig m.sig),
        d.reads_msg (take j (c.encode_sig m.sig)),
        d.cut_sig j l,
      )

  handle_msg-shrinks :
      (bytes : List ℕ) (m : MsgWithSig) (rest : List ℕ)
      → ((t : ℕ) (bs : List ℕ) (n : Message) (more : List ℕ)
          → c.decode_msg t bs ≡ some (n, more)
          → length more ≤ length bs)
      → ((bs : List ℕ) (s : Slice ℕ) (more : List ℕ)
          → c.decode_sig bs ≡ some (s, more)
          → length more ≤ length bs)
      → handle_msg c bytes ≡ handled m rest
      → length rest < length bytes
  unfolding handle_msg
  handle_msg-shrinks [] m rest f g e = cc
  handle_msg-shrinks (t ∷ bytes) m rest f g e = elim (Option-cases (c.decode_msg t bytes)) [
    | inl fails ↦ absurd (ground arith)
    | inr ((msg, more), read) ↦ elim (Option-cases (c.decode_sig more)) [
      | inl fails ↦ absurd (ground arith)
      | inr ((sig, left), read_sig) ↦
          ground (arith, f t bytes msg more read, g more sig left read_sig)
    ]
  ]

  -- Frames, and bytes behind them that are no message.
  pub handle_conn-tail :
      (ms : List MsgWithSig) (tail : List ℕ) (fuel i : ℕ) (takes : ℕ → Bool)
      → All (ReadsBack c) ms
      → (handle_msg c tail ≡ at_end) ⊎ (handle_msg c tail ≡ refused)
      → ((j : ℕ) → takes j ≡ true)
      → length (frames c ms ++ tail) < fuel
      → ((handle_conn c fuel takes i (frames c ms ++ tail)).0 ≡ ms)
        × ((handle_conn c fuel takes i (frames c ms ++ tail)).1 ≢ stuck)
  unfolding handle_conn
  handle_conn-tail ms tail zero i takes ds ends all l = absurd (omega arith)
  handle_conn-tail [] tail (suc fuel) i takes ds ends all l = elim ends [
    | inl e ↦ rw (e, handle_conn) (refl, λ x. cc)
    | inr e ↦ rw (e, handle_conn) (refl, λ x. cc)
  ]
  handle_conn-tail (n ∷ ms) tail (suc fuel) i takes ds ends all l =
      let (same, stops) =
        handle_conn-tail ms tail fuel (i + 1) takes ds.1 ends all (shorter fuel l) in
      rw
        (
          append_assoc (frame c n) (frames c ms) tail,
          handle_msg-frame n (frames c ms ++ tail) ds.0,
          all i,
          handle_conn,
        )
        (ap (◌∷◌ n) same, stops)
    where
      shorter :
          (f : ℕ) → length (frames c (n ∷ ms) ++ tail) < suc f → length (frames c ms ++ tail) < f
      shorter f x = omega (
        arith,
        length-append (frame c n ++ frames c ms) tail,
        length-append (frame c n) (frames c ms),
        length-append (frames c ms) tail,
        length-frame c n,
      )

  -- The messages whose frames have come in whole go to the channel in their order, and nothing of a
  -- frame that is cut off, where the sender has failed: `handleConn` ends then. This holds if the
  -- codec reads back what it writes and refuses what is cut off, the channel takes every
  -- message, and the fuel is more than the bytes.
  pub handle_conn-frames :
      (ms : List MsgWithSig) (m : MsgWithSig) (k fuel i : ℕ) (takes : ℕ → Bool)
      → All (ReadsBack c) ms
      → ReadsBack c m
      → ((j : ℕ) → takes j ≡ true)
      → k < length (frame c m)
      → length (frames c ms ++ take k (frame c m)) < fuel
      → ((handle_conn c fuel takes i (frames c ms ++ take k (frame c m))).0 ≡ ms)
        × ((handle_conn c fuel takes i (frames c ms ++ take k (frame c m))).1 ≢ stuck)
  handle_conn-frames ms m k fuel i takes ds d all h l =
      handle_conn-tail ms (take k (frame c m)) fuel i takes ds (handle_msg-cut m k d h) all l

  -- On any bytes whatever, `handleConn` ends, if the decoder puts no bytes back and the fuel is more
  -- than the bytes; and it sends no more messages to the channel than there are bytes.
  pub handle_conn_ends :
      (fuel i : ℕ) (takes : ℕ → Bool) (bytes : List ℕ)
      → ((t : ℕ) (bs : List ℕ) (m : Message) (rest : List ℕ)
          → c.decode_msg t bs ≡ some (m, rest)
          → length rest ≤ length bs)
      → ((bs : List ℕ) (s : Slice ℕ) (rest : List ℕ)
          → c.decode_sig bs ≡ some (s, rest)
          → length rest ≤ length bs)
      → length bytes < fuel
      → ((handle_conn c fuel takes i bytes).1 ≢ stuck)
        × (length (handle_conn c fuel takes i bytes).0 ≤ length bytes)
  unfolding handle_conn
  handle_conn_ends zero i takes bytes shrinks shrinks_sig h = absurd (omega arith)
  handle_conn_ends (suc fuel) i takes bytes shrinks shrinks_sig h =
      elim (Handled-cases (handle_msg c bytes)) [
        | inl (inl e) ↦ rw (e, handle_conn) ((λ x. cc), omega arith)
        | inl (inr e) ↦ rw (e, handle_conn) ((λ x. cc), omega arith)
        | inr (m, rest, e) ↦
            let less = handle_msg-shrinks bytes m rest shrinks shrinks_sig e in
            let (ends, few) =
              handle_conn_ends fuel (i + 1) takes rest shrinks shrinks_sig (omega (arith, less)) in
            elim (Bool-cases (takes i)) [
              | inl t ↦ rw (e, t, handle_conn) (ends, omega (arith, less, few))
              | inr t ↦ rw (e, t, handle_conn) ((λ x. cc), omega arith)
            ]
      ]
