-- ===== src/Transport/Secure/Authentic.antt =====
-- What a read that returns says about the stream, whoever wrote it.
use peerc.Common.{
  ◌≡◌, refl, ap, ◌∙◌, sym, ℕ, ◌≤◌, inl, inr, false, some, length, take, drop, Result, Result-cases,
  ok, err, arith,
}
use peerc.Protocol.Bytes.{Bytes, pack, unpack}
use peerc.Protocol.Frame.{Json, Frame, message, chunk, read_any_frame}
use peerc.Crypto.Channel.{Aead, nonce_len, decrypt}
use peerc.Crypto.Channel.Receive.{next, receive-cases}
use peerc.Transport.Tcp.{TransportError, TcpConnection, read_frame}
use peerc.Transport.Secure.{
  EncryptedTransport, Received, sequence_size, min_encrypted_payload_len, unwrap, unwrap_after,
  with_rest, receive_payload, receive_read, receive_frame,
}

module _ {Message : Type 0} (codec : Json Message) (aead : Aead) where
  open aead use {unseal}

  -- The payload of a frame that opens under the next number to the plaintext of what was read.
  abbrev pub Authentic : EncryptedTransport → Bytes → Bytes → Received Message → Type 0
  Authentic t ad wire_payload r =
      (plaintext : Bytes) × (min_encrypted_payload_len ≤ length wire_payload)
      × (unpack (take sequence_size wire_payload) ≡ t.channel.expected_recv_sequence)
      × (unseal t.channel.session_keys.recv_key (pack nonce_len t.channel.expected_recv_sequence)
            (drop sequence_size wire_payload) ad
          ≡ some plaintext)
      × (unwrap codec plaintext ≡ ok r)

  with_rest-ok :
      (rest rest' : Bytes) (result : Result TransportError (Received Message))
      (r : Received Message)
      → with_rest rest result ≡ ok (r, rest')
      → (result ≡ ok r) × (rest' ≡ rest)
  unfolding with_rest
  with_rest-ok rest rest' (err e) r h = cc
  with_rest-ok rest rest' (ok s) r h = ground arith

  -- A payload that is long enough and opened.
  opened-ok :
      (t t' : EncryptedTransport) (wire_payload ad rest rest' plaintext : Bytes)
      (r : Received Message)
      → decrypt aead t.channel
          (unpack (take sequence_size wire_payload))
          (drop sequence_size wire_payload)
          ad
        ≡ (next aead t.channel, ok plaintext)
      → receive_payload codec aead t ad (chunk wire_payload, rest) ≡ (t', ok (r, rest'))
      → (min_encrypted_payload_len ≤ length wire_payload)
        × (t' ≡ record t { channel = next aead t.channel })
        × (with_rest rest (unwrap codec plaintext) ≡ ok (r, rest'))
  unfolding receive_payload unwrap_after
  opened-ok t t' wire_payload ad rest rest' plaintext r opened h = ground arith

  read_frame-ok :
      (tcp tcp' : TcpConnection) (reader : Bytes) (r : Frame Message × Bytes)
      → read_frame codec tcp reader ≡ (tcp', ok r)
      → (tcp' ≡ tcp) × (tcp.closed ≡ false) × (read_any_frame codec reader ≡ ok r)
  unfolding read_frame
  read_frame-ok tcp tcp' reader r h = ground arith

  payload-Authentic :
      (t t' : EncryptedTransport) (wire_payload ad rest rest' : Bytes) (r : Received Message)
      → receive_payload codec aead t ad (chunk wire_payload, rest) ≡ (t', ok (r, rest'))
      → Authentic t ad wire_payload r
        × (rest' ≡ rest)
        × (t' ≡ record t { channel = next aead t.channel })
  unfolding receive_payload unwrap_after with_rest
  payload-Authentic t t' wire_payload ad rest rest' r h =
      elim (receive-cases aead t.channel (record {
        sequence = unpack (take sequence_size wire_payload);
        ciphertext = drop sequence_size wire_payload;
        associated_data = ad;
      })) [
        | inl (e, refused) ↦ absurd (ground arith)
        | inr (plaintext, number, _, opens, accepted) ↦
            let (long, shape, wrapped) =
              opened-ok t t' wire_payload ad rest rest' plaintext r accepted h in
            let (unwrapped, same) = with_rest-ok rest rest' (unwrap codec plaintext) r wrapped in
            (
              (
                plaintext,
                long,
                number,
                ap
                      (λ (n : ℕ).
                        unseal t.channel.session_keys.recv_key (pack nonce_len n)
                          (drop sequence_size wire_payload) ad)
                      (sym number)
                    ∙ opens,
                unwrapped,
              ),
              same,
              shape,
            )
      ]

  read-Authentic :
      (t t' : EncryptedTransport) (ad : Bytes) (frame : Frame Message) (rest rest' : Bytes)
      (r : Received Message)
      → receive_payload codec aead t ad (frame, rest) ≡ (t', ok (r, rest'))
      → (wire_payload : Bytes) × (frame ≡ chunk wire_payload)
        × Authentic t ad wire_payload r
        × (rest' ≡ rest)
        × (t' ≡ record t { channel = next aead t.channel })
  unfolding receive_payload
  read-Authentic t t' ad (message m) rest rest' r h = absurd (ground arith)
  read-Authentic t t' ad (chunk wire_payload) rest rest' r h =
      let (authentic, left, shape) = payload-Authentic t t' wire_payload ad rest rest' r h in
      (wire_payload, refl, authentic, left, shape)

  receive_frame-read :
      (t : EncryptedTransport) (reader ad : Bytes) (q : Frame Message × Bytes)
      → read_frame codec t.tcp reader ≡ (t.tcp, ok q)
      → receive_frame codec aead t reader ad ≡ receive_payload codec aead t ad q
  unfolding receive_frame receive_read
  receive_frame-read t reader ad q read = rw (read) refl

  -- Whatever the stream holds: when `receive_frame` returns, the connection was open, the stream began with a binary
  -- frame of at least 24 bytes whose header is the number that the channel expects and whose other
  -- bytes open under this number to what is returned, by its marker; the channel
  -- expects the next number, and the rest of the stream is left.
  pub receive_frame-Authentic :
      (t t' : EncryptedTransport) (reader ad rest : Bytes) (r : Received Message)
      → receive_frame codec aead t reader ad ≡ (t', ok (r, rest))
      → (wire_payload : Bytes) × (t.tcp.closed ≡ false)
        × (read_any_frame codec reader ≡ ok (chunk wire_payload, rest))
        × Authentic t ad wire_payload r
        × (t' ≡ record t { channel = next aead t.channel })
  unfolding receive_frame receive_read
  receive_frame-Authentic t t' reader ad rest r h =
      elim (Result-cases (read_frame codec t.tcp reader).1) [
        | inl (e, bad) ↦ absurd (ground arith)
        | inr ((frame, left), fine) ↦
            let result = read_frame codec t.tcp reader in
            let (same, live, read) =
              read_frame-ok t.tcp result.0 reader (frame, left)
                (ap (λ (q : Result TransportError (Frame Message × Bytes)). (result.0, q)) fine) in
            let known : read_frame codec t.tcp reader ≡ (t.tcp, ok (frame, left)) = cc in
            let (wire_payload, is_chunk, authentic, same_rest, shape) =
              read-Authentic t t' ad frame left rest r
                (sym (receive_frame-read t reader ad (frame, left) known) ∙ h) in
            (wire_payload, live, cc, authentic, shape)
      ]
