-- ===== src/Transport/Secure/Delivery.antt =====
-- A run of sends, and the reads of the peer.
use peerc.Common.{
  ◌≡◌, refl, sym, ap, ◌∙◌, ℕ, zero, suc, ◌+◌, ◌≤◌, List, [], ◌∷◌, ◌++◌, map, false, length, some,
  Result, ok, err, arith, Result-cases, inl, inr,
}
use mathlib.Core.List.{append_assoc, append-nil}
use peerc.Protocol.Bytes.{Bytes, pack}
use peerc.Protocol.Frame.{Json}
use peerc.Crypto.Channel.{Aead, nonce_len}
use peerc.Crypto.Channel.Receive.{next}
use peerc.Transport.Tcp.{TransportError, drained}
use peerc.Transport.Secure.{
  EncryptedTransport, Received, json, binary, relay, type_json, type_binary, type_relay, unwrap,
  send_message, send_binary, send_relay, send_encrypted, receive_frame,
}
use peerc.Transport.Secure.Sending.{send_encrypted-ok}
use peerc.Transport.Secure.Arriving.{receive_frame-opens}

-- What a session sends.
pub data Payload (Message : Type 0) : Type 0 where
  control : Message → Payload Message
  file_data relayed : Bytes → Payload Message

module _ {Message : Type 0} (codec : Json Message) (aead : Aead) (ad : Bytes) where
  open codec use {dumps, loads-dumps}

  unfoldable pub send :
      EncryptedTransport → Payload Message → EncryptedTransport × Result TransportError (Unit {0})
  send t (control m) = send_message codec aead t drained m ad
  send t (file_data payload) = send_binary aead t drained payload ad
  send t (relayed payload) = send_relay aead t drained payload ad

  -- Calls in order, up to the first that raises.
  unfoldable pub send_all :
      EncryptedTransport
      → List (Payload Message)
      → EncryptedTransport × Result TransportError (Unit {0})
  send_all t [] = (t, ok tt)
  send_all t (o ∷ os) = elim (send t o).1 [
    | err e ↦ ((send t o).0, err e)
    | ok u ↦ send_all (send t o).0 os
  ]

  abbrev and_first :
      Received Message
      → EncryptedTransport × Result TransportError (List (Received Message) × Bytes)
      → EncryptedTransport × Result TransportError (List (Received Message) × Bytes)
  and_first r (t, err e) = (t, err e)
  and_first r (t, ok (rs, rest)) = (t, ok (r ∷ rs, rest))

  abbrev go_on :
      EncryptedTransport × Result TransportError (Received Message × Bytes)
      → (EncryptedTransport
          → Bytes
          → EncryptedTransport × Result TransportError (List (Received Message) × Bytes))
      → EncryptedTransport × Result TransportError (List (Received Message) × Bytes)
  go_on (after, err e) rest_of = (after, err e)
  go_on (after, ok (r, rest)) rest_of = and_first r (rest_of after rest)

  -- A read loop that takes the given number of frames.
  unfoldable pub receive_all :
      ℕ
      → EncryptedTransport
      → Bytes
      → EncryptedTransport × Result TransportError (List (Received Message) × Bytes)
  receive_all zero t reader = (t, ok ([], reader))
  receive_all (suc n) t reader =
      go_on (receive_frame codec aead t reader ad) (λ after rest. receive_all n after rest)

  abbrev pub as_received : Payload Message → Received Message
  as_received (control m) = json m
  as_received (file_data payload) = binary payload
  as_received (relayed payload) = relay payload

  abbrev inner_payload : Payload Message → Bytes
  inner_payload (control m) = type_json ∷ dumps m
  inner_payload (file_data payload) = type_binary ∷ payload
  inner_payload (relayed payload) = type_relay ∷ payload

  send-inner :
      (t : EncryptedTransport) (o : Payload Message)
      → send t o ≡ send_encrypted aead t drained (inner_payload o) ad
  unfolding send send_message send_binary send_relay
  send-inner t (control m) = refl
  send-inner t (file_data payload) = refl
  send-inner t (relayed payload) = refl

  unwrap-inner : (o : Payload Message) → unwrap codec (inner_payload o) ≡ ok (as_received o)
  unfolding unwrap
  unwrap-inner (control m) = rw (loads-dumps m) refl
  unwrap-inner (file_data payload) = refl
  unwrap-inner (relayed payload) = refl

  -- The two ends agree on the key of this direction and on the number of the next frame, and are open.
  abbrev pub InStep : EncryptedTransport → EncryptedTransport → Type 0
  InStep a b =
      (a.channel.session_keys.send_key ≡ b.channel.session_keys.recv_key)
      × (a.channel.send_sequence ≡ b.channel.expected_recv_sequence)
      × (b.tcp.closed ≡ false)

  opens :
      (a b : EncryptedTransport) (inner : Bytes)
      → a.channel.session_keys.send_key ≡ b.channel.session_keys.recv_key
      → aead.unseal b.channel.session_keys.recv_key
          (pack nonce_len a.channel.send_sequence)
          (aead.seal a.channel.session_keys.send_key
            (pack nonce_len a.channel.send_sequence)
            inner
            ad)
          ad
        ≡ some inner
  opens a b inner keys = cc (
      aead.unseal-seal a.channel.session_keys.send_key (pack nonce_len a.channel.send_sequence)
        inner ad)

  send_all-first :
      (a : EncryptedTransport) (o : Payload Message) (os : List (Payload Message)) {u : Unit {0}}
      → (send a o).1 ≡ ok u
      → send_all a (o ∷ os) ≡ send_all (send a o).0 os
  unfolding send_all
  send_all-first a o os fine = rw (fine, send_all) refl

  receive_all-first :
      (n : ℕ) (b b1 b' : EncryptedTransport) (reader rest rest' : Bytes) (r : Received Message)
      (rs : List (Received Message))
      → receive_frame codec aead b reader ad ≡ (b1, ok (r, rest))
      → receive_all n b1 rest ≡ (b', ok (rs, rest'))
      → receive_all (suc n) b reader ≡ (b', ok (r ∷ rs, rest'))
  unfolding receive_all
  receive_all-first n b b1 b' reader rest rest' r rs first others =
      rw (first, receive_all) (rw (others) refl)

  -- Where a ciphertext is at least as long as a tag: when a run of sends returns, in any mix of
  -- control messages, file data and relayed bytes, the peer reads from the wire exactly what was sent, in order,
  -- by its kind, leaves what follows, and the two ends are in step again.
  pub received-sent_all :
      (tagged : (k n p a : Bytes) → 16 ≤ length (aead.seal k n p a)) (a a' b : EncryptedTransport)
      (os : List (Payload Message))
      → InStep a b
      → send_all a os ≡ (a', ok tt)
      → (wire : Bytes) × (b' : EncryptedTransport) × (a'.tcp.writer ≡ a.tcp.writer ++ wire)
        × ((rest : Bytes)
            → receive_all (length os) b (wire ++ rest) ≡ (b', ok (map as_received os, rest)))
        × InStep a' b'
  unfolding send_all receive_all
  received-sent_all tagged a a' b [] (keys, numbers, live) h =
      let same : a ≡ a' =
        ap (λ (q : EncryptedTransport × Result TransportError (Unit {0})). q.0) h in
      (
        [],
        b,
        sym (append-nil a'.tcp.writer)
            ∙ ap (λ (x : EncryptedTransport). x.tcp.writer ++ []) (sym same),
        λ rest. refl,
        (
          ap (λ (x : EncryptedTransport). x.channel.session_keys.send_key) (sym same) ∙ keys,
          ap (λ (x : EncryptedTransport). x.channel.send_sequence) (sym same) ∙ numbers,
          live,
        ),
      )
  received-sent_all tagged a a' b (o ∷ os) (keys, numbers, live) h =
      elim (Result-cases (send a o).1) [
        | inl (e, bad) ↦ absurd (ground arith)
        | inr (u, fine) ↦
            let (bytes, fits, encoded, _, shape) =
              send_encrypted-ok aead a (send a o).0 drained (inner_payload o) ad (
                sym (send-inner a o)
                ∙ ap (λ (r : Result TransportError (Unit {0})). ((send a o).0, r)) fine) in
            let later : send_all (send a o).0 os ≡ (a', ok tt) =
              sym (send_all-first a o os fine) ∙ h in
            let (wire, b', written, reads, step) =
              received-sent_all tagged (send a o).0 a' (record b { channel = next aead b.channel })
                os
                (
                  ap (λ (x : EncryptedTransport). x.channel.session_keys.send_key) shape ∙ keys,
                  ap (λ (x : EncryptedTransport). x.channel.send_sequence) shape
                      ∙ ap (λ (n : ℕ). n + 1) numbers,
                  live,
                )
                later in
            (
              bytes ++ wire,
              b',
              written
                  ∙ ap (λ (x : EncryptedTransport). x.tcp.writer ++ wire) shape
                  ∙ append_assoc a.tcp.writer bytes wire,
              λ rest. rw (append_assoc bytes wire rest) (
                  receive_all-first (length os) b _ b' _ (wire ++ rest) rest (as_received o) _
                    (receive_frame-opens codec aead b a.channel.send_sequence _ ad (inner_payload o)
                      (wire ++ rest) (as_received o) live encoded fits numbers (tagged _ _ _ ad)
                      (opens a b (inner_payload o) keys) (unwrap-inner o))
                    (reads rest)),
              step,
            )
      ]
