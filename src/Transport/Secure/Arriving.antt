-- ===== src/Transport/Secure/Arriving.antt =====
-- From one end of an encrypted transport to the other.
use peerc.Common.{
  ◌≡◌, refl, sym, ap, ◌∙◌, ℕ, ◌+◌, ◌<◌, ◌≤◌, ◌^◌, ◌++◌, false, length, length-append, take, drop,
  take-append, drop-append, le→ltb, some, ok, arith,
}
use peerc.Protocol.Bytes.{Bytes, pack, length-pack, unpack-pack}
use peerc.Protocol.Frame.{Json, chunk, encode_any, encode_binary_frame}
use peerc.Protocol.Frame.RoundTrip.{read_any_frame-encode_any}
use peerc.Crypto.Channel.{Aead, nonce_len}
use peerc.Crypto.Channel.Receive.{next, receive-opens}
use peerc.Transport.Tcp.{TcpConnection, read_frame}
use peerc.Transport.Secure.{
  EncryptedTransport, Received, sequence_size, min_encrypted_payload_len, unwrap, unwrap_after,
  with_rest, receive_payload, receive_read, receive_frame,
}

take-header :
    (number : ℕ) (ciphertext : Bytes)
    → take sequence_size (pack sequence_size number ++ ciphertext) ≡ pack sequence_size number
take-header number ciphertext =
    ap (λ (k : ℕ). take k (pack sequence_size number ++ ciphertext))
      (sym (length-pack sequence_size number))
    ∙ take-append (pack sequence_size number) ciphertext

drop-header :
    (number : ℕ) (ciphertext : Bytes)
    → drop sequence_size (pack sequence_size number ++ ciphertext) ≡ ciphertext
drop-header number ciphertext =
    ap (λ (k : ℕ). drop k (pack sequence_size number ++ ciphertext))
      (sym (length-pack sequence_size number))
    ∙ drop-append (pack sequence_size number) ciphertext

length-wire :
    (number : ℕ) (ciphertext : Bytes)
    → length (pack sequence_size number ++ ciphertext) ≡ sequence_size + length ciphertext
length-wire number ciphertext =
    omega (
      arith,
      length-append (pack sequence_size number) ciphertext,
      length-pack sequence_size number,
    )

module _ {Message : Type 0} (codec : Json Message) (aead : Aead) where
  open aead use {unseal}

  read_frame-chunk :
      (tcp : TcpConnection) (payload rest : Bytes) {bytes : Bytes}
      → tcp.closed ≡ false
      → 0 < length payload
      → encode_binary_frame payload ≡ ok bytes
      → read_frame codec tcp (bytes ++ rest) ≡ (tcp, ok (chunk payload, rest))
  unfolding read_frame encode_any
  read_frame-chunk tcp payload rest live filled encoded =
      ground (arith, read_any_frame-encode_any codec (chunk payload) rest encoded filled)

  receive_payload-opens :
      (t : EncryptedTransport) (number : ℕ) (ciphertext ad inner rest : Bytes)
      (r : Received Message)
      → number < 256 ^ sequence_size
      → number ≡ t.channel.expected_recv_sequence
      → 16 ≤ length ciphertext
      → unseal t.channel.session_keys.recv_key (pack nonce_len number) ciphertext ad ≡ some inner
      → unwrap codec inner ≡ ok r
      → receive_payload codec aead t ad (chunk (pack sequence_size number ++ ciphertext), rest)
        ≡ (record t { channel = next aead t.channel }, ok (r, rest))
  unfolding receive_payload unwrap_after with_rest
  receive_payload-opens t number ciphertext ad inner rest r fits expected long opens wrapped =
      rw
        (le→ltb (length (pack sequence_size number ++ ciphertext)) min_encrypted_payload_len
          (omega (arith, length-wire number ciphertext)))
        (rw
          (
            take-header number ciphertext,
            drop-header number ciphertext,
            unpack-pack sequence_size number fits,
          )
          (rw
            (receive-opens aead t.channel
              (record { sequence = number; ciphertext = ciphertext; associated_data = ad }) inner
              expected (omega arith) opens)
            (rw (wrapped) refl)))

  pub receive_frame-opens :
      (t : EncryptedTransport) (number : ℕ) (ciphertext ad inner rest : Bytes)
      (r : Received Message) {bytes : Bytes}
      → t.tcp.closed ≡ false
      → encode_binary_frame (pack sequence_size number ++ ciphertext) ≡ ok bytes
      → number < 256 ^ sequence_size
      → number ≡ t.channel.expected_recv_sequence
      → 16 ≤ length ciphertext
      → unseal t.channel.session_keys.recv_key (pack nonce_len number) ciphertext ad ≡ some inner
      → unwrap codec inner ≡ ok r
      → receive_frame codec aead t (bytes ++ rest) ad
        ≡ (record t { channel = next aead t.channel }, ok (r, rest))
  unfolding receive_frame receive_read
  receive_frame-opens t number ciphertext ad inner rest r live encoded fits expected long opens
        wrapped =
      rw
        (read_frame-chunk t.tcp (pack sequence_size number ++ ciphertext) rest live
          (omega (arith, length-wire number ciphertext)) encoded)
        (receive_payload-opens t number ciphertext ad inner rest r fits expected long opens wrapped)
