-- ===== src/Crypto/Handshake/Proven.antt =====
-- What a side that completes has seen, and when it writes to the trust store.
use peerc.Common.{
  ◌≡◌, sym, ap, inl, inr, ℕ, true, some, String, eq_iff, ok, arith, Bool-cases, Option-cases,
  Result-cases,
}
use peerc.Protocol.Bytes.{Bytes}
use peerc.Protocol.Hex.{from_hex}
use peerc.Protocol.Values.{Value, null, object, Fields}
use peerc.Protocol.Messages.{validate_message}
use peerc.Trust.Store.{TrustDecision}
use peerc.Crypto.Nonces.{check_and_add}
use peerc.Crypto.Handshake.{
  Primitives, DeviceKeypair, EphemeralKeypair, HandshakeResult, Arrival, timeout, failure, frame,
  State,
}
use peerc.Crypto.Handshake.Transcript.{compute_responder_transcript}
use peerc.Crypto.Handshake.Trusting.{verify_device_identity, check_trust, record_trust}
use peerc.Crypto.Handshake.Sides.{
  Outcome, text_at, typed, received, check_signature, agree, concluded, unless_replayed, identified,
  proven, initiator_finish, initiator_receive,
}

typed-ok :
    (kind : String) (v : Value) (m : Fields)
    → typed kind v ≡ ok m
    → (v ≡ object m) × (text_at "type" m ≡ kind)
unfolding typed
typed-ok kind (object n) m h = ground (arith, eq_iff (text_at "type" n) kind)
typed-ok kind null m h = absurd (ground arith)
typed-ok kind v m h = absurd (ground arith)

pub received-ok :
    (kind : String) (arrival : Arrival) (m : Fields)
    → received kind arrival ≡ ok m
    → (arrival ≡ frame (object m))
      × (validate_message (object m) ≡ ok tt)
      × (text_at "type" m ≡ kind)
unfolding received
received-ok kind timeout m h = absurd (ground arith)
received-ok kind failure m h = absurd (ground arith)
received-ok kind (frame v) m h = elim (Result-cases (validate_message v)) [
  | inl (e, bad) ↦ absurd (ground arith)
  | inr (u, fine) ↦
      let (same, named) = typed-ok kind v m (ground arith) in
      (ap frame same, rw (sym same) fine, named)
]

module _ (p : Primitives) where
  open p use {compute_device_id, is_public_key, verify}

  -- The device holds the private key of the public key that its id is the digest of.
  abbrev pub Signed : Fields → Bytes → String → Bytes → Type 0
  Signed m public_key signature transcript =
      (is_public_key public_key ≡ true)
      × ((sig_bytes : Bytes) × (from_hex signature ≡ some sig_bytes)
          × (verify public_key sig_bytes transcript ≡ true))

  abbrev pub Identified : Fields → State → Bytes → TrustDecision → Type 0
  Identified m state public_key decision =
      (from_hex (text_at "public_key" m) ≡ some public_key)
      × (compute_device_id public_key ≡ text_at "device_id" m)
      × (check_trust state.trust_store (text_at "device_id" m) (text_at "public_key" m)
          ≡ ok decision)

  pub identity-ok :
      (device_id public_key_hex : String) (key : Bytes)
      → (verify_device_identity p device_id public_key_hex).1 ≡ ok key
      → (from_hex public_key_hex ≡ some key) × (compute_device_id key ≡ device_id)
  unfolding verify_device_identity
  identity-ok device_id public_key_hex key h = elim (Option-cases (from_hex public_key_hex)) [
    | inl bad ↦ absurd (ground arith)
    | inr (bytes, read) ↦ ground (arith, eq_iff (compute_device_id bytes) device_id)
  ]

  pub signature-ok :
      (device_id : String) (m : Fields) (key : Bytes) (signature : String) (transcript : Bytes)
      → (check_signature p device_id key signature transcript).1 ≡ ok tt
      → Signed m key signature transcript
  unfolding check_signature
  signature-ok device_id m key signature transcript h = elim (Option-cases (from_hex signature)) [
    | inl bad ↦ absurd (ground arith)
    | inr (bytes, read) ↦ (ground arith, (bytes, read, ground arith))
  ]

  pub unless_replayed-ok :
      {A : Type 0} (now : ℕ) (m : Fields) (state : State) (rest : State → Outcome A) (a : A)
      → (unless_replayed p now m state rest).result ≡ ok a
      → ((check_and_add state.nonce_cache (text_at "nonce" m) now).1 ≡ true)
        × ((rest (record state {
          nonce_cache = (check_and_add state.nonce_cache (text_at "nonce" m) now).0;
        })).result
            ≡ ok a)
  unfolding unless_replayed
  unless_replayed-ok now m state rest a h =
      elim (Bool-cases (check_and_add state.nonce_cache (text_at "nonce" m) now).1) [
        | inl fresh ↦ (fresh, rw (fresh) at (h))
        | inr old ↦ absurd (ground arith)
      ]

  pub identified-ok :
      {A : Type 0} (m : Fields) (state : State) (rest : Bytes → TrustDecision → Outcome A) (a : A)
      → (identified p m state rest).result ≡ ok a
      → (key : Bytes) × (decision : TrustDecision) × Identified m state key decision
        × ((rest key decision).result ≡ ok a)
  unfolding identified
  identified-ok m state rest a h =
      elim (Result-cases
        (verify_device_identity p (text_at "device_id" m) (text_at "public_key" m)).1) [
          | inl (e, bad) ↦ absurd (ground arith)
          | inr (key, fine) ↦
              let (read, digest) =
                identity-ok (text_at "device_id" m) (text_at "public_key" m) key fine in
              elim (Result-cases
                (check_trust state.trust_store (text_at "device_id" m) (text_at "public_key" m))) [
                  | inl (e, bad) ↦ absurd (ground arith)
                  | inr (decision, allowed) ↦ (key, decision, (read, digest, allowed), ground arith)
                ]
        ]

  pub proven-ok :
      {A : Type 0} (now : ℕ) (m : Fields) (key : Bytes) (pre : TrustDecision) (signature : String)
      (transcript : Bytes) (state : State) (rest : State → TrustDecision → Outcome A) (a : A)
      → (proven p now m key pre signature transcript state rest).result ≡ ok a
      → Signed m key signature transcript
        × ((after : State) × (decision : TrustDecision) × ((rest after decision).result ≡ ok a))
  unfolding proven
  proven-ok now m key pre signature transcript state rest a h =
      elim (Result-cases (check_signature p (text_at "device_id" m) key signature transcript).1) [
        | inl (e, bad) ↦ absurd (ground arith)
        | inr (u, fine) ↦
            let written =
              record_trust now state.trust_store (text_at "device_id" m) (text_at "public_key" m)
                (text_at "sender_name" m) pre in
            elim (Result-cases written.1) [
              | inl (e, bad) ↦ absurd (ground arith)
              | inr (decision, done) ↦ (
                signature-ok (text_at "device_id" m) m key signature transcript (ground arith),
                (record state { trust_store = written.0 }, decision, ground arith),
              )
            ]
      ]

  pub concluded-ok :
      (mine : EphemeralKeypair) (m : Fields) (hash : Bytes) (decision : TrustDecision)
      (r : HandshakeResult)
      → concluded p mine m hash decision ≡ ok r
      → (r.peer_device_id ≡ text_at "device_id" m)
        × (r.peer_public_key ≡ text_at "public_key" m)
        × (r.transcript_hash ≡ hash)
  unfolding concluded
  concluded-ok mine m hash decision r h =
      elim (Result-cases (agree p mine (text_at "ephemeral_key" m))) [
        | inl (e, bad) ↦ absurd (ground arith)
        | inr (secret, fine) ↦ ground arith
      ]

  initiator_finish-ok :
      (now : ℕ) (me : DeviceKeypair) (mine : EphemeralKeypair) (m : Fields) (transcript : Bytes)
      (state : State) (decision : TrustDecision) (r : HandshakeResult)
      → (initiator_finish p now me mine m transcript state decision).result ≡ ok r
      → (r.peer_device_id ≡ text_at "device_id" m) × (r.peer_public_key ≡ text_at "public_key" m)
  unfolding initiator_finish
  initiator_finish-ok now me mine m transcript state decision r h =
      let (named, keyed, _) = concluded-ok mine m _ decision r h in (named, keyed)

  -- An initiator that completes has read a response with a nonce that was not seen before, from a
  -- device whose id is the digest of its public key and which its trust store neither has as revoked
  -- nor with another key, signed with the key of that device over both sides' messages; the result
  -- names that device and that key.
  pub initiator_authenticates :
      (now : ℕ) (me : DeviceKeypair) (mine : EphemeralKeypair) (init_msg : Fields) (state : State)
      (arrival : Arrival) (r : HandshakeResult)
      → (initiator_receive p now me mine init_msg state arrival).result ≡ ok r
      → (m : Fields) × (key : Bytes) × (decision : TrustDecision) × (arrival ≡ frame (object m))
        × ((check_and_add state.nonce_cache (text_at "nonce" m) now).1 ≡ true)
        × Identified m state key decision
        × Signed m key (text_at "signature" m) (compute_responder_transcript p init_msg m)
        × (r.peer_device_id ≡ text_at "device_id" m)
        × (r.peer_public_key ≡ text_at "public_key" m)
  unfolding initiator_receive
  initiator_authenticates now me mine init_msg state arrival r h =
      elim (Result-cases (received "handshake_response" arrival)) [
        | inl (e, bad) ↦ absurd (ground arith)
        | inr (m, read) ↦
            let (framed, _, _) = received-ok "handshake_response" arrival m read in
            let (fresh, after_nonce) =
              unless_replayed-ok now m state _ r (rw (read, initiator_receive) at (h)) in
            let (key, decision, peer, after_identity) = identified-ok m _ _ r after_nonce in
            let (signed, (after, final, finished)) =
              proven-ok now m key decision (text_at "signature" m) _ _ _ r after_identity in
            let (named, keyed) = initiator_finish-ok now me mine m _ after final r finished in
            (m, key, decision, framed, fresh, peer, signed, named, keyed)
      ]
