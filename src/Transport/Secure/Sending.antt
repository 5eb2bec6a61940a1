-- ===== src/Transport/Secure/Sending.antt =====
-- What a call that sends leaves on the wire.
use peerc.Common.{◌≡◌, ◌+◌, ◌<◌, ◌^◌, ◌++◌, false, ok, arith, dec_le}
use peerc.Protocol.Bytes.{Bytes, pack}
use peerc.Protocol.Frame.{encode_binary_frame}
use peerc.Crypto.Channel.{Aead, SecureChannel, EncryptedFrame, max_sequence, nonce_len}
use peerc.Crypto.Channel.Sequence.{encrypt-fits, encrypt-exhausted}
use peerc.Transport.Tcp.{TcpConnection, Drain, drain_after, write_binary_frame}
use peerc.Transport.Secure.{
  EncryptedTransport, sequence_size, send_wire, send_sealed, send_encrypted,
}

pub write_binary_frame-ok :
    (tcp tcp' : TcpConnection) (drain : Drain) (payload : Bytes)
    → write_binary_frame tcp drain payload ≡ (tcp', ok tt)
    → (bytes : Bytes) × (encode_binary_frame payload ≡ ok bytes)
      × (tcp.closed ≡ false)
      × (tcp' ≡ record tcp { writer = tcp.writer ++ bytes })
unfolding write_binary_frame drain_after
write_binary_frame-ok tcp tcp' drain payload h = ground arith

send_wire-ok :
    (t t' : EncryptedTransport) (drain : Drain) (frame : EncryptedFrame)
    → send_wire t drain frame ≡ (t', ok tt)
    → (bytes : Bytes) × (frame.sequence < 256 ^ sequence_size)
      × (encode_binary_frame (pack sequence_size frame.sequence ++ frame.ciphertext) ≡ ok bytes)
      × (t.tcp.closed ≡ false)
      × (t' ≡ record t { tcp = record t.tcp { writer = t.tcp.writer ++ bytes } })
unfolding send_wire write_binary_frame drain_after
send_wire-ok t t' drain frame h = ground arith

module _ (aead : Aead) where
  open aead use {seal}

  abbrev pub sealed_frame : SecureChannel → Bytes → Bytes → EncryptedFrame
  sealed_frame c inner ad = record {
    sequence = c.send_sequence;
    ciphertext = seal c.session_keys.send_key (pack nonce_len c.send_sequence) inner ad;
  }

  abbrev pub wire_payload : SecureChannel → Bytes → Bytes → Bytes
  wire_payload c inner ad =
      pack sequence_size c.send_sequence
      ++ seal c.session_keys.send_key (pack nonce_len c.send_sequence) inner ad

  -- A call that returns has put one frame on the wire, under the channel's number, and has counted.
  pub send_encrypted-ok :
      (t t' : EncryptedTransport) (drain : Drain) (inner ad : Bytes)
      → send_encrypted aead t drain inner ad ≡ (t', ok tt)
      → (bytes : Bytes) × (t.channel.send_sequence < 256 ^ sequence_size)
        × (encode_binary_frame (wire_payload t.channel inner ad) ≡ ok bytes)
        × (t.tcp.closed ≡ false)
        × (t' ≡ record {
          tcp = record t.tcp { writer = t.tcp.writer ++ bytes };
          channel = record t.channel { send_sequence = t.channel.send_sequence + 1 };
        })
  unfolding send_encrypted send_sealed
  send_encrypted-ok t t' drain inner ad h = elim (dec_le t.channel.send_sequence max_sequence) [
    | yes fits ↦
        send_wire-ok
          (record t { channel = record t.channel { send_sequence = t.channel.send_sequence + 1 } })
          t' drain (sealed_frame t.channel inner ad)
          (rw (encrypt-fits aead t.channel inner ad fits) at h)
    | no full ↦ absurd (ground (arith, encrypt-exhausted aead t.channel inner ad (omega arith)))
  ]
