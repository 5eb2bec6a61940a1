-- ===== src/Crypto/Handshake/Responding.antt =====
-- What a responder that completes has seen.
use peerc.Common.{
  ◌≡◌, refl, inl, inr, ℕ, true, List, [], ◌∷◌, String, ok, arith, ap, sym, ◌∙◌, Bool-cases,
  Result-cases,
}
use peerc.Protocol.Bytes.{Bytes}
use peerc.Protocol.Hex.{to_hex}
use peerc.Protocol.Values.{pos, text, object, Fields, fields, get}
use peerc.Protocol.Messages.Make.{make_handshake_response}
use peerc.Trust.Store.{TrustDecision}
use peerc.Crypto.Nonces.{check_and_add}
use peerc.Crypto.Handshake.{
  Primitives, DeviceKeypair, EphemeralKeypair, HandshakeResult, Arrival, frame, State,
}
use peerc.Crypto.Handshake.Transcript.{
  signed_fields, compute_responder_transcript, compute_initiator_transcript,
}
use peerc.Crypto.Handshake.Trusting.{verify_device_identity, check_trust}
use peerc.Crypto.Handshake.Sides.{
  Outcome, Pending, text_at, received, unless_replayed, identified, respond, responder_receive,
  responder_finish,
}
use peerc.Crypto.Handshake.Proven.{
  Signed, Identified, identity-ok, received-ok, unless_replayed-ok, proven-ok, concluded-ok,
}

-- The six fields of the answer, which are signed before the signature is there.
abbrev unsigned : DeviceKeypair → EphemeralKeypair → String → String → Fields
unsigned me mine nonce name = fields (
    ("type", text "handshake_response")
    ∷ ("device_id", text me.device_id)
    ∷ ("public_key", text (to_hex me.public_key))
    ∷ ("ephemeral_key", text (to_hex mine.public_key))
    ∷ ("nonce", text nonce)
    ∷ ("sender_name", text name)
    ∷ [])

abbrev answered : ℕ → DeviceKeypair → EphemeralKeypair → String → String → String → Fields
answered now me mine nonce name signature =
    make_handshake_response (pos now) me.device_id (to_hex me.public_key) (to_hex mine.public_key)
      nonce name signature

module _ (p : Primitives) where
  -- The transcript of the answer that is sent is the one that was signed.
  same_transcript :
      (now : ℕ) (me : DeviceKeypair) (mine : EphemeralKeypair) (nonce name : String) (m : Fields)
      (signature : String)
      → compute_responder_transcript p m (unsigned me mine nonce name)
        ≡ compute_responder_transcript p m (answered now me mine nonce name signature)
  unfolding compute_responder_transcript signed_fields get make_handshake_response
  same_transcript now me mine nonce name m signature = refl

  respond-holds :
      (now : ℕ) (me : DeviceKeypair) (mine : EphemeralKeypair) (nonce name : String) (m : Fields)
      (state : State) (key : Bytes) (decision : TrustDecision) (held : Pending)
      → (respond p now me mine nonce name m state key decision).result ≡ ok held
      → (held.init_msg ≡ m)
        × (held.public_key ≡ key)
        × (held.resp_transcript ≡ compute_responder_transcript p m (unsigned me mine nonce name))
        × (held.my_signature ≡ to_hex (me.sign held.resp_transcript))
        × ((respond p now me mine nonce name m state key decision).sent
            ≡ answered now me mine nonce name held.my_signature ∷ [])
  unfolding respond
  respond-holds now me mine nonce name m state key decision held h = ground arith

  unless_replayed-rest :
      {A : Type 0} (now : ℕ) (m : Fields) (state : State) (rest : State → Outcome A) (a : A)
      → (unless_replayed p now m state rest).result ≡ ok a
      → unless_replayed p now m state rest
        ≡ rest (record state {
          nonce_cache = (check_and_add state.nonce_cache (text_at "nonce" m) now).0;
        })
  unfolding unless_replayed
  unless_replayed-rest now m state rest a h =
      elim (Bool-cases (check_and_add state.nonce_cache (text_at "nonce" m) now).1) [
        | inl fresh ↦ rw (fresh) refl
        | inr old ↦ absurd (ground arith)
      ]

  identified-rest :
      {A : Type 0} (m : Fields) (state : State) (rest : Bytes → TrustDecision → Outcome A) (a : A)
      → (identified p m state rest).result ≡ ok a
      → (key : Bytes) × (decision : TrustDecision) × Identified p m state key decision
        × (identified p m state rest ≡ rest key decision)
  unfolding identified
  identified-rest m state rest a h =
      elim (Result-cases
        (verify_device_identity p (text_at "device_id" m) (text_at "public_key" m)).1) [
          | inl (e, bad) ↦ absurd (ground arith)
          | inr (key, fine) ↦
              let (read, digest) =
                identity-ok p (text_at "device_id" m) (text_at "public_key" m) key fine in
              elim (Result-cases
                (check_trust state.trust_store (text_at "device_id" m) (text_at "public_key" m))) [
                  | inl (e, bad) ↦ absurd (ground arith)
                  | inr (decision, allowed) ↦ (key, decision, (read, digest, allowed), ground arith)
                ]
        ]

  -- What a responder that waits for the finish has read, sent and kept.
  abbrev pub Waits :
      ℕ
      → DeviceKeypair
      → State
      → Arrival
      → (m response : Fields) → Bytes
      → TrustDecision
      → List Fields
      → Pending
      → Type 0
  Waits now me state first m response key decision sent held =
      (first ≡ frame (object m))
      × ((check_and_add state.nonce_cache (text_at "nonce" m) now).1 ≡ true)
      × Identified p m state key decision
      × (sent ≡ response ∷ [])
      × (held.init_msg ≡ m)
      × (held.public_key ≡ key)
      × (held.resp_transcript ≡ compute_responder_transcript p m response)
      × (held.my_signature ≡ to_hex (me.sign (compute_responder_transcript p m response)))

  pub responder_receive-Waits :
      (now : ℕ) (me : DeviceKeypair) (mine : EphemeralKeypair) (nonce name : String) (state : State)
      (first : Arrival) (held : Pending)
      → (responder_receive p now me mine nonce name state first).result ≡ ok held
      → (m response : Fields) × (key : Bytes) × (decision : TrustDecision) × Waits now me state
          first m response key decision
          (responder_receive p now me mine nonce name state first).sent
          held
  unfolding responder_receive
  responder_receive-Waits now me mine nonce name state first held h =
      elim (Result-cases (received "handshake_init" first)) [
        | inl (e, bad) ↦ absurd (ground arith)
        | inr (m, read) ↦
            let (framed, _, _) = received-ok "handshake_init" first m read in
            let opened = rw (read, responder_receive) at (h) in
            let (fresh, after_nonce) = unless_replayed-ok p now m state _ held opened in
            let (key, decision, peer, step) = identified-rest m _ _ held after_nonce in
            let whole = unless_replayed-rest now m state _ held opened ∙ step in
            let (kept, keyed, covered, mine_signed, sent) =
              respond-holds now me mine nonce name m _ key decision held
                (ap (λ (o : Outcome Pending). o.result) (sym step) ∙ after_nonce) in
            let transcript = covered ∙ same_transcript now me mine nonce name m held.my_signature in
            (
              m,
              answered now me mine nonce name held.my_signature,
              key,
              decision,
              (
                framed,
                fresh,
                peer,
                rw (read, responder_receive) (ap (λ (o : Outcome Pending). o.sent) whole ∙ sent),
                kept,
                keyed,
                transcript,
                mine_signed ∙ ap (λ (t : Bytes). to_hex (me.sign t)) transcript,
              ),
            )
      ]

  -- The signature of the peer in terms of the messages.
  pub Waits-Signed :
      (now : ℕ) (me : DeviceKeypair) (state : State) (first : Arrival) (m response : Fields)
      (key : Bytes) (decision : TrustDecision) (sent : List Fields) (held : Pending)
      (signature : String)
      → Waits now me state first m response key decision sent held
      → Signed p held.init_msg held.public_key signature
          (compute_initiator_transcript held.resp_transcript held.my_signature)
      → Signed p m key signature (
          compute_initiator_transcript
            (compute_responder_transcript p m response)
            (to_hex (me.sign (compute_responder_transcript p m response))))
  Waits-Signed now me state first m response key decision sent held signature
        (_, _, _, _, _, keyed, covered, mine_signed) signed =
      rw (sym mine_signed, sym covered, sym keyed) signed

  -- A responder that completes has read a first message with a nonce that was not seen before, from
  -- a device whose id is the digest of its public key and which its trust store neither has as
  -- revoked nor with another key; it has sent one response; and it has read a finish with the
  -- signature of that device over the whole handshake: over that first message, that response and
  -- the responder's own signature over the two. The result names that device and that key.
  pub responder_authenticates :
      (now later : ℕ) (me : DeviceKeypair) (mine : EphemeralKeypair) (nonce name : String)
      (state after : State) (first second : Arrival) (held : Pending) (r : HandshakeResult)
      → (responder_receive p now me mine nonce name state first).result ≡ ok held
      → (responder_finish p later mine held after second).result ≡ ok r
      → (m n : Fields) × (key : Bytes) × (decision : TrustDecision) × (first ≡ frame (object m))
        × (second ≡ frame (object n))
        × ((check_and_add state.nonce_cache (text_at "nonce" m) now).1 ≡ true)
        × Identified p m state key decision
        × ((response : Fields) × ((responder_receive p now me mine nonce name state first).sent
              ≡ response ∷ [])
            × Signed p m key (text_at "signature" n) (
                compute_initiator_transcript
                  (compute_responder_transcript p m response)
                  (to_hex (me.sign (compute_responder_transcript p m response)))))
        × (r.peer_device_id ≡ text_at "device_id" m)
        × (r.peer_public_key ≡ text_at "public_key" m)
  unfolding responder_finish
  responder_authenticates now later me mine nonce name state after first second held r h k =
      elim (Result-cases (received "handshake_finish" second)) [
        | inl (e, bad) ↦ absurd (ground arith)
        | inr (n, finished) ↦
            let (framed_too, _, _) = received-ok "handshake_finish" second n finished in
            let (m, response, key, decision, waits) =
              responder_receive-Waits now me mine nonce name state first held h in
            let (framed, fresh, peer, sent, kept, _, _, _) = waits in
            let (signed, (written, final, concluded_too)) =
              proven-ok p later held.init_msg held.public_key held.pre_decision
                (text_at "signature" n) _ after _ r (rw (finished, responder_finish) at (k)) in
            let (named, named_key, _) = concluded-ok p mine held.init_msg _ final r concluded_too in
            (
              m,
              n,
              key,
              decision,
              framed,
              framed_too,
              fresh,
              peer,
              (
                response,
                sent,
                Waits-Signed now me state first m response key decision _ held
                    (text_at "signature" n) waits signed,
              ),
              named ∙ ap (text_at "device_id") kept,
              named_key ∙ ap (text_at "public_key") kept,
            )
      ]
