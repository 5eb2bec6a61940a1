-- ===== src/Transport/Examples.antt =====
-- Three messages of different kinds over a toy cipher with a tag of sixteen bytes.
use peerc.Common.{
  ◌≡◌, refl, ℕ, ◌+◌, ◌≤◌, List, [], ◌∷◌, ◌++◌, Bool, true, false, some, length, drop, replicate, ok,
  arith,
}
use peerc.Protocol.Bytes.{Bytes, pack, unpack}
use peerc.Protocol.Frame.{
  encode_binary_frame, chunk, read_any_frame, read_raw, read_payload, readexactly,
}
use peerc.Protocol.Examples.{tiny}
use peerc.Crypto.Kdf.{SessionKeys}
use peerc.Crypto.Channel.{Aead, encrypt, decrypt, construct_nonce}
use peerc.Crypto.Channel.Receive.{next}
use peerc.Transport.Tcp.{write_binary_frame, drain_after, read_frame}
use peerc.Transport.Secure.{
  EncryptedTransport, json, binary, relay, send_message, send_encrypted, send_sealed, send_wire,
  send_binary, send_relay, receive_frame, receive_read, receive_payload, unwrap_after, with_rest,
  unwrap,
}
use peerc.Transport.Secure.Authentic.{Authentic, receive_frame-Authentic}
use peerc.Transport.Secure.Delivery.{
  Payload, control, file_data, relayed, send, send_all, receive_all, InStep, received-sent_all,
}

abbrev tag : Bytes
tag = replicate 16 7

abbrev toy : Aead
toy = record {
  seal = λ k n p a. tag ++ p;
  unseal = λ k n c a. some (drop 16 c);
  unseal-seal = λ k n p a. refl;
}

toy_tagged : (k n p a : Bytes) → 16 ≤ length (toy.seal k n p a)
toy_tagged k n p a = omega arith

abbrev keys : ℕ → ℕ → SessionKeys
keys a b = record {
  send_key = replicate 32 a;
  recv_key = replicate 32 b;
  session_id = replicate 16 3;
}

abbrev at : SessionKeys → ℕ → ℕ → Bytes → EncryptedTransport
at k sent received wire = record {
  tcp = record { closed = false; writer = wire };
  channel = record { session_keys = k; send_sequence = sent; expected_recv_sequence = received };
}

abbrev left : EncryptedTransport
left = at (keys 1 2) 0 5 []

abbrev right : EncryptedTransport
right = at (keys 2 1) 5 0 []

abbrev messages : List (Payload Bool)
messages = control true ∷ file_data (1 ∷ 2 ∷ []) ∷ relayed [] ∷ []

abbrev frame_of : ℕ → Bytes → Bytes
frame_of number inner =
    128 ∷ 0 ∷ 0 ∷ (24 + length inner) ∷ 0 ∷ 0 ∷ 0 ∷ 0 ∷ 0 ∷ 0 ∷ 0 ∷ number ∷ tag ++ inner

abbrev left_after : EncryptedTransport
left_after = at (keys 1 2) 3 5 (
    frame_of 0 (0x4A ∷ 123 ∷ 125 ∷ [])
    ++ (frame_of 1 (0x42 ∷ 1 ∷ 2 ∷ []) ++ frame_of 2 (0x52 ∷ [])))

sends : send_all tiny toy [] left messages ≡ (left_after, ok tt)
unfolding send_all send send_message send_encrypted send_sealed encrypt construct_nonce send_wire
    write_binary_frame encode_binary_frame pack drain_after send_binary send_relay
sends = refl

received-sent_all_example :
    (wire : Bytes) × (right_after : EncryptedTransport) × (left_after.tcp.writer
      ≡ left.tcp.writer ++ wire)
    × ((rest : Bytes)
        → receive_all tiny toy [] 3 right (wire ++ rest)
          ≡ (right_after, ok (json true ∷ binary (1 ∷ 2 ∷ []) ∷ relay [] ∷ [], rest)))
    × InStep tiny toy [] left_after right_after
received-sent_all_example =
    received-sent_all tiny toy [] toy_tagged left left_after right messages (refl, refl, refl) sends

abbrev one_frame : Bytes
one_frame = frame_of 0 (0x42 ∷ 1 ∷ [])

abbrev right_after_one : EncryptedTransport
right_after_one = at (keys 2 1) 5 1 []

one_received :
    receive_frame tiny toy right one_frame [] ≡ (right_after_one, ok (binary (1 ∷ []), []))
unfolding receive_frame receive_read receive_payload unwrap_after with_rest unwrap read_frame
    read_any_frame read_raw read_payload readexactly unpack decrypt construct_nonce pack
one_received = refl

receive_frame-Authentic_example :
    (wire_payload : Bytes) × (right.tcp.closed ≡ false)
    × (read_any_frame tiny one_frame ≡ ok (chunk wire_payload, []))
    × Authentic tiny toy right [] wire_payload (binary (1 ∷ []))
    × (right_after_one ≡ record right { channel = next toy right.channel })
receive_frame-Authentic_example =
    receive_frame-Authentic tiny toy right right_after_one one_frame [] [] (binary (1 ∷ []))
      one_received
