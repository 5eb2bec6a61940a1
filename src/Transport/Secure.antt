-- ===== src/Transport/Secure.antt =====
-- core/transport/secure.py: EncryptedTransport, messages in encrypted frames over a TCPConnection.
pub mod Sending
pub mod Arriving
pub mod Delivery
pub mod Authentic
use peerc.Common.{
  ◌≡◌, ℕ, ◌+◌, ◌^◌, List, [], ◌∷◌, ◌++◌, Bool, true, false, Option, none, some, length, take, drop,
  ltb, ◌==◌, if◌then◌else◌, Result, ok, err,
}
use peerc.Protocol.Bytes.{Bytes, pack, unpack}
use peerc.Protocol.Frame.{Json, Frame, message, chunk}
use peerc.Crypto.Channel.{EncryptionError, EncryptedFrame, Aead, SecureChannel, encrypt, decrypt}
use peerc.Crypto.Channel as Channel
use peerc.Transport.Tcp.{
  TransportError, sequence_exhausted, encryption_failed, struct_error, plain_json_frame, too_short,
  empty_payload, malformed_json, channel_error, TcpConnection, Drain, write_binary_frame,
  read_frame, close,
}

abbrev pub type_json : ℕ
type_json = 0x4A

abbrev pub type_binary : ℕ
type_binary = 0x42

abbrev pub type_relay : ℕ
type_relay = 0x52

abbrev pub sequence_size : ℕ
sequence_size = 8

abbrev pub min_encrypted_payload_len : ℕ
min_encrypted_payload_len = sequence_size + 16

pub record EncryptedTransport : Type 0 where
  pub tcp : TcpConnection
  pub channel : SecureChannel

-- What `receive_frame` returns: its kind with the message or the bytes.
pub data Received (Message : Type 0) : Type 0 where
  json : Message → Received Message
  binary relay raw : Bytes → Received Message

-- `tcp.write_binary_frame` of the sequence header and the ciphertext.
unfoldable pub send_wire :
    EncryptedTransport
    → Drain
    → EncryptedFrame
    → EncryptedTransport × Result TransportError (Unit {0})
send_wire t drain frame =
    if ltb frame.sequence (256 ^ sequence_size)
    then (let (tcp, result) =
          write_binary_frame t.tcp drain (pack sequence_size frame.sequence ++ frame.ciphertext) in
        (record t { tcp = tcp }, result))
    else (t, err struct_error)

unfoldable pub send_sealed :
    EncryptedTransport
    → Drain
    → SecureChannel × Result EncryptionError EncryptedFrame
    → EncryptedTransport × Result TransportError (Unit {0})
send_sealed t drain (channel, err (Channel.sequence_exhausted n)) =
    (record t { tcp = close t.tcp; channel = channel }, err sequence_exhausted)
send_sealed t drain (channel, err e) = (record t { channel = channel }, err encryption_failed)
send_sealed t drain (channel, ok frame) = send_wire (record t { channel = channel }) drain frame

unfoldable pub with_rest :
    {Message : Type 0}
    → Bytes
    → Result TransportError (Received Message)
    → Result TransportError (Received Message × Bytes)
with_rest rest (err e) = err e
with_rest rest (ok r) = ok (r, rest)

module _ (aead : Aead) where
  unfoldable pub send_encrypted :
      EncryptedTransport
      → Drain
      → Bytes
      → Bytes
      → EncryptedTransport × Result TransportError (Unit {0})
  send_encrypted t drain inner_payload associated_data =
      send_sealed t drain (encrypt aead t.channel inner_payload associated_data)

  unfoldable pub send_binary :
      EncryptedTransport
      → Drain
      → Bytes
      → Bytes
      → EncryptedTransport × Result TransportError (Unit {0})
  send_binary t drain payload associated_data =
      send_encrypted t drain (type_binary ∷ payload) associated_data

  unfoldable pub send_relay :
      EncryptedTransport
      → Drain
      → Bytes
      → Bytes
      → EncryptedTransport × Result TransportError (Unit {0})
  send_relay t drain payload associated_data =
      send_encrypted t drain (type_relay ∷ payload) associated_data

module _ {Message : Type 0} (codec : Json Message) where
  open codec use {loads}

  -- The payload by its marker.
  unfoldable pub unwrap : Bytes → Result TransportError (Received Message)
  unwrap [] = err empty_payload
  unwrap (marker ∷ body) =
      if marker == type_json
      then elim (loads body) [ none ↦ err malformed_json | some m ↦ ok (json m) ]
      else if marker == type_binary
      then ok (binary body)
      else if marker == type_relay
      then ok (relay body)
      else ok (raw (marker ∷ body))

module _ {Message : Type 0} (codec : Json Message) (aead : Aead) where
  open codec use {dumps}

  unfoldable pub send_message :
      EncryptedTransport
      → Drain
      → Message
      → Bytes
      → EncryptedTransport × Result TransportError (Unit {0})
  send_message t drain m associated_data =
      send_encrypted aead t drain (type_json ∷ dumps m) associated_data

  unfoldable pub unwrap_after :
      EncryptedTransport
      → Bytes
      → SecureChannel × Result EncryptionError Bytes
      → EncryptedTransport × Result TransportError (Received Message × Bytes)
  unfolding with_rest
  unwrap_after t rest (channel, err e) = (record t { channel = channel }, err (channel_error e))
  unwrap_after t rest (channel, ok plaintext) =
      (record t { channel = channel }, with_rest rest (unwrap codec plaintext))

  unfoldable pub receive_payload :
      EncryptedTransport
      → Bytes
      → Frame Message × Bytes
      → EncryptedTransport × Result TransportError (Received Message × Bytes)
  unfolding unwrap_after
  receive_payload t associated_data (message m, rest) = (t, err plain_json_frame)
  receive_payload t associated_data (chunk wire_payload, rest) =
      if ltb (length wire_payload) min_encrypted_payload_len
      then (t, err too_short)
      else unwrap_after t rest (
          decrypt aead t.channel (unpack (take sequence_size wire_payload))
            (drop sequence_size wire_payload) associated_data)

  unfoldable pub receive_read :
      EncryptedTransport
      → Bytes
      → TcpConnection × Result TransportError (Frame Message × Bytes)
      → EncryptedTransport × Result TransportError (Received Message × Bytes)
  receive_read t associated_data (tcp, err e) = (record t { tcp = tcp }, err e)
  receive_read t associated_data (tcp, ok r) =
      receive_payload (record t { tcp = tcp }) associated_data r

  unfoldable pub receive_frame :
      EncryptedTransport
      → Bytes
      → Bytes
      → EncryptedTransport × Result TransportError (Received Message × Bytes)
  unfolding receive_read
  receive_frame t reader associated_data =
      receive_read t associated_data (read_frame codec t.tcp reader)
