-- ===== src/Transport/Wire.antt =====
-- Messages on the wire: the frame of `SendMsg`, and `handleMsg` and `handleConn` of
-- conn/net_transport.go. The msgpack codec is an argument.
pub mod Delivered
pub mod Tests
use simple_ft.Base.{
  ℕ, zero, suc, ◌+◌, Slice, Bool, true, false, if◌then◌else◌, ltb, List, [], ◌∷◌, ◌++◌, Option,
  none, some, length,
}
use simple_ft.Data.{Message, tag}

-- What is sent and received: `MsgWithSig`.
pub record MsgWithSig : Type 0 where
  pub msg : Message
  pub sig : Slice ℕ

-- The encoder and the decoder. A decoder is told the type of the message by its tag, and gives the
-- value and the bytes that it has not read, or an error.
pub record Codec : Type 0 where
  pub encode_msg : Message → List ℕ
  pub encode_sig : Slice ℕ → List ℕ
  pub decode_msg : ℕ → List ℕ → Option (Message × List ℕ)
  pub decode_sig : List ℕ → Option (Slice ℕ × List ℕ)

-- How `handleMsg` ends: with a message and the rest of the stream, at the end of the stream, or
-- with another error.
pub data Handled : Type 0 where
  handled : MsgWithSig → List ℕ → Handled
  at_end : Handled
  refused : Handled

-- How `handleConn` ends; `stuck` is no ending of the code.
pub data Ending : Type 0 where
  ended failed stuck : Ending

module _ (c : Codec) where
  -- What `SendMsg` writes.
  unfoldable pub frame : MsgWithSig → List ℕ
  frame m = tag m.msg ∷ (c.encode_msg m.msg ++ c.encode_sig m.sig)

  -- `handleMsg` up to the channel: the types that are known are those of the tags 0, 1 and 2.
  unfoldable pub handle_msg : List ℕ → Handled
  handle_msg [] = at_end
  handle_msg (rpc_type ∷ bytes) =
      if ltb rpc_type 3
      then elim (c.decode_msg rpc_type bytes) [
        | none ↦ refused
        | some (msg, more) ↦ elim (c.decode_sig more) [
          | none ↦ refused
          | some (sig, rest) ↦ handled (record { msg = msg; sig = sig }) rest
        ]
      ]
      else refused

  -- `handleConn`: the messages that go to the channel, and how it ends. `takes i` says whether the
  -- channel takes the message with that number, and not the shutdown comes first.
  unfoldable pub handle_conn : ℕ → (ℕ → Bool) → ℕ → List ℕ → List MsgWithSig × Ending
  unfolding handle_msg
  handle_conn zero takes i bytes = ([], stuck)
  handle_conn (suc fuel) takes i bytes = elim (handle_msg bytes) [
    | at_end ↦ ([], ended)
    | refused ↦ ([], failed)
    | handled m rest ↦
        let next = handle_conn fuel takes (i + 1) rest in
        if takes i then (m ∷ next.0, next.1) else ([], failed)
  ]
