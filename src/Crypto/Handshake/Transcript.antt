-- ===== src/Crypto/Handshake/Transcript.antt =====
-- What the two signatures of the handshake cover.
use peerc.Common.{ℕ, [], ◌∷◌, ◌++◌, none, some, String}
use peerc.Protocol.Bytes.{Bytes}
use peerc.Protocol.Hex.{codes}
use peerc.Protocol.Values.{Value, null, Fields, fields, get}
use peerc.Crypto.Handshake.{Primitives}

-- message[name], where the check has seen that it is there.
abbrev pub value_at : String → Fields → Value
value_at name m = elim (get name m) [ none ↦ null | some v ↦ v ]

-- The six fields that the transcript takes of a message.
unfoldable pub signed_fields : Fields → Fields
signed_fields m = fields (
    ("type", value_at "type" m)
    ∷ ("device_id", value_at "device_id" m)
    ∷ ("public_key", value_at "public_key" m)
    ∷ ("ephemeral_key", value_at "ephemeral_key" m)
    ∷ ("nonce", value_at "nonce" m)
    ∷ ("sender_name", value_at "sender_name" m)
    ∷ [])

abbrev pub newline : ℕ
newline = 10

module _ (p : Primitives) where
  open p use {canonical_json_bytes, sha256}

  -- `compute_responder_transcript`
  unfoldable pub compute_responder_transcript : Fields → Fields → Bytes
  compute_responder_transcript init_msg resp_msg =
      codes "peerc-v2-handshake-responder\n"
      ++ (canonical_json_bytes (signed_fields init_msg)
          ++ newline ∷ canonical_json_bytes (signed_fields resp_msg))

  -- `compute_final_transcript_hash`
  unfoldable pub compute_final_transcript_hash : Bytes → String → Bytes
  compute_final_transcript_hash initiator_transcript signature =
      sha256 (initiator_transcript ++ newline ∷ codes signature)

-- `compute_initiator_transcript`
unfoldable pub compute_initiator_transcript : Bytes → String → Bytes
compute_initiator_transcript responder_transcript signature =
    codes "peerc-v2-handshake-initiator\n" ++ (responder_transcript ++ newline ∷ codes signature)
