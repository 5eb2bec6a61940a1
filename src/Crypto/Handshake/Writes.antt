-- ===== src/Crypto/Handshake/Writes.antt =====
-- The handshake writes to the trust store only for a peer that has proved that it holds its key.
use peerc.Common.{
  ◌≡◌, refl, ◌∙◌, ◌⊎◌, inl, inr, ℕ, [], ◌∷◌, Option, some, String, ok, arith, Bool-cases,
  Result-cases,
}
use peerc.Protocol.Bytes.{Bytes}
use peerc.Protocol.Values.{object, Fields}
use peerc.Trust.Store.{TrustStore, TrustDecision}
use peerc.Crypto.Nonces.{check_and_add}
use peerc.Crypto.Handshake.{Primitives, DeviceKeypair, EphemeralKeypair, Arrival, frame, State}
use peerc.Crypto.Handshake.Transcript.{compute_responder_transcript, compute_initiator_transcript}
use peerc.Crypto.Handshake.Trusting.{verify_device_identity, check_trust}
use peerc.Crypto.Handshake.Sides.{
  Outcome, Pending, text_at, received, check_signature, unless_replayed, identified, proven,
  initiator_finish, initiator_receive, respond, responder_receive, responder_finish,
}
use peerc.Crypto.Handshake.Proven.{Signed, identity-ok, received-ok, signature-ok}
use peerc.Crypto.Handshake.Responding.{responder_receive-Waits, Waits-Signed}
use peerc.Protocol.Hex.{to_hex, from_hex}

-- The store is as it was, or the proof is there.
abbrev pub OnlyIf : {A : Type 0} → Option TrustStore → Type 0 → Outcome A → Type 0
OnlyIf store Proof outcome = (outcome.state.trust_store ≡ store) ⊎ Proof

via :
    {A B : Type 0} (store : Option TrustStore) (Proof : Type 0) (o : Outcome A) (named : Outcome B)
    → o.state.trust_store ≡ named.state.trust_store
    → OnlyIf store Proof named
    → OnlyIf store Proof o
via store Proof o named e (inl same) = inl (e ∙ same)
via store Proof o named e (inr proof) = inr proof

only_inl : {P : Type 0} → P ⊎ ⊥ → P
only_inl (inl h) = h
only_inl (inr h) = absurd h

module _ (p : Primitives) where
  unless_replayed-OnlyIf :
      {A : Type 0} (Proof : Type 0) (now : ℕ) (m : Fields) (state : State)
      (rest : State → Outcome A)
      → ((seen : State)
          → seen.trust_store ≡ state.trust_store
          → OnlyIf state.trust_store Proof (rest seen))
      → OnlyIf state.trust_store Proof (unless_replayed p now m state rest)
  unfolding unless_replayed
  unless_replayed-OnlyIf Proof now m state rest h =
      elim (Bool-cases (check_and_add state.nonce_cache (text_at "nonce" m) now).1) [
        | inl fresh ↦
            via state.trust_store Proof (unless_replayed p now m state rest)
              (rest (record state {
                nonce_cache = (check_and_add state.nonce_cache (text_at "nonce" m) now).0;
              }))
              (ground arith) (h _ refl)
        | inr old ↦ inl (ground arith)
      ]

  -- The key is the one that the message has, and its digest is the id that the message has.
  abbrev pub Names : Fields → Bytes → Type 0
  Names m key =
      (from_hex (text_at "public_key" m) ≡ some key)
      × (p.compute_device_id key ≡ text_at "device_id" m)

  identified-OnlyIf :
      {A : Type 0} (store : Option TrustStore) (Proof : Type 0) (m : Fields) (state : State)
      (rest : Bytes → TrustDecision → Outcome A)
      → state.trust_store ≡ store
      → ((key : Bytes) (decision : TrustDecision)
          → Names m key
          → OnlyIf store Proof (rest key decision))
      → OnlyIf store Proof (identified p m state rest)
  unfolding identified
  identified-OnlyIf store Proof m state rest same h =
      elim (Result-cases
        (verify_device_identity p (text_at "device_id" m) (text_at "public_key" m)).1) [
          | inl (e, bad) ↦ inl (ground arith)
          | inr (key, fine) ↦
              elim (Result-cases
                (check_trust state.trust_store (text_at "device_id" m) (text_at "public_key" m))) [
                  | inl (e, bad) ↦ inl (ground arith)
                  | inr (decision, allowed) ↦
                      via store Proof (identified p m state rest) (rest key decision) (ground arith)
                        (h key decision
                          (identity-ok p (text_at "device_id" m) (text_at "public_key" m) key fine))
                ]
        ]

  proven-OnlyIf :
      {A : Type 0} (now : ℕ) (m : Fields) (key : Bytes) (pre : TrustDecision) (signature : String)
      (transcript : Bytes) (state : State) (rest : State → TrustDecision → Outcome A)
      → OnlyIf state.trust_store
          (Signed p m key signature transcript)
          (proven p now m key pre signature transcript state rest)
  unfolding proven
  proven-OnlyIf now m key pre signature transcript state rest =
      elim (Result-cases (check_signature p (text_at "device_id" m) key signature transcript).1) [
        | inl (e, bad) ↦ inl (ground arith)
        | inr (u, fine) ↦
            inr (signature-ok p (text_at "device_id" m) m key signature transcript (ground arith))
      ]

  -- The record that follows a proof, in a state that has the store.
  proven_after :
      {A : Type 0} (store : Option TrustStore) (Proof : Type 0) (now : ℕ) (m : Fields) (key : Bytes)
      (pre : TrustDecision) (signature : String) (transcript : Bytes) (state : State)
      (rest : State → TrustDecision → Outcome A)
      → state.trust_store ≡ store
      → (Signed p m key signature transcript → Proof)
      → OnlyIf store Proof (proven p now m key pre signature transcript state rest)
  proven_after store Proof now m key pre signature transcript state rest kept proof =
      elim (proven-OnlyIf now m key pre signature transcript state rest) [
        | inl same ↦ inl (same ∙ kept)
        | inr signed ↦ inr (proof signed)
      ]

  -- Whatever arrives, an initiator leaves the trust store as it was unless what arrived is a message
  -- whose signature over both sides' messages verifies with the key that the message has and whose digest is the id in it.
  initiator_writes :
      (now : ℕ) (me : DeviceKeypair) (mine : EphemeralKeypair) (init_msg : Fields) (state : State)
      (arrival : Arrival)
      → ((initiator_receive p now me mine init_msg state arrival).state.trust_store
          ≡ state.trust_store)
        ⊎ ((m : Fields) × (key : Bytes) × (arrival ≡ frame (object m))
            × Names m key
            × Signed p m key (text_at "signature" m) (compute_responder_transcript p init_msg m))
  unfolding initiator_receive
  initiator_writes now me mine init_msg state arrival =
      elim (Result-cases (received "handshake_response" arrival)) [
        | inl (e, bad) ↦ inl (ground arith)
        | inr (m, read) ↦
            let (framed, _, _) = received-ok "handshake_response" arrival m read in
            let transcript = compute_responder_transcript p init_msg m in
            rw (read, initiator_receive)
              (unless_replayed-OnlyIf _ now m state _ (λ seen kept.
                identified-OnlyIf state.trust_store _ m seen _ kept (λ key decision named.
                  proven_after state.trust_store _ now m key decision (text_at "signature" m)
                    transcript seen (initiator_finish p now me mine m transcript) kept
                    (λ signed. (m, key, framed, named, signed)))))
      ]

  -- A responder writes nothing to the trust store before the finish has arrived.
  responder_receive-trust_store :
      (now : ℕ) (me : DeviceKeypair) (mine : EphemeralKeypair) (nonce name : String) (state : State)
      (arrival : Arrival)
      → (responder_receive p now me mine nonce name state arrival).state.trust_store
        ≡ state.trust_store
  unfolding responder_receive respond
  responder_receive-trust_store now me mine nonce name state arrival =
      elim (Result-cases (received "handshake_init" arrival)) [
        | inl (e, bad) ↦ ground arith
        | inr (m, read) ↦
            rw (read, responder_receive)
              (only_inl (
                unless_replayed-OnlyIf ⊥ now m state _ (λ seen kept.
                  identified-OnlyIf state.trust_store ⊥ m seen _ kept
                    (λ key decision named. inl kept))))
      ]

  -- Whatever arrives as a finish, a responder leaves the trust store as it was unless the signature
  -- in it verifies, over the whole handshake, with the key that the first message named.
  responder_writes :
      (now : ℕ) (mine : EphemeralKeypair) (held : Pending) (state : State) (arrival : Arrival)
      → ((responder_finish p now mine held state arrival).state.trust_store ≡ state.trust_store)
        ⊎ ((n : Fields) × (arrival ≡ frame (object n))
            × Signed p held.init_msg held.public_key
                (text_at "signature" n)
                (compute_initiator_transcript held.resp_transcript held.my_signature))
  unfolding responder_finish
  responder_writes now mine held state arrival =
      elim (Result-cases (received "handshake_finish" arrival)) [
        | inl (e, bad) ↦ inl (ground arith)
        | inr (n, read) ↦
            let (framed, _, _) = received-ok "handshake_finish" arrival n read in
            rw (read, responder_finish)
              (proven_after state.trust_store _ now held.init_msg held.public_key held.pre_decision
                (text_at "signature" n)
                (compute_initiator_transcript held.resp_transcript held.my_signature) state _ refl
                (λ signed. (n, framed, signed)))
      ]

  -- Whatever arrives, a trust store is written only for a peer that has proved its key. An initiator
  -- leaves its store as it was unless the message that arrived has a signature over both sides'
  -- messages that verifies with the public key in that message, whose digest is the id in it. A
  -- responder leaves its store alone on the first message, and, where it waits for a finish, on
  -- whatever arrives then unless the signature in it verifies with the public key in the first
  -- message, whose digest is the id in it, over that message, the response that was sent and the
  -- responder's own signature.
  pub written_after_proof :
      (now later : ℕ) (me : DeviceKeypair) (mine : EphemeralKeypair) (init_msg : Fields)
      (nonce name : String) (state after : State) (arrival first second : Arrival) (held : Pending)
      → (responder_receive p now me mine nonce name state first).result ≡ ok held
      → (((initiator_receive p now me mine init_msg state arrival).state.trust_store
            ≡ state.trust_store)
          ⊎ ((m : Fields) × (key : Bytes) × (arrival ≡ frame (object m))
              × Names m key
              × Signed p m key (text_at "signature" m) (compute_responder_transcript p init_msg m)))
        × ((responder_receive p now me mine nonce name state arrival).state.trust_store
            ≡ state.trust_store)
        × (((responder_finish p later mine held after second).state.trust_store ≡ after.trust_store)
            ⊎ ((m n response : Fields) × (key : Bytes) × (first ≡ frame (object m))
                × (second ≡ frame (object n))
                × Names m key
                × ((responder_receive p now me mine nonce name state first).sent ≡ response ∷ [])
                × Signed p m key (text_at "signature" n) (
                    compute_initiator_transcript
                      (compute_responder_transcript p m response)
                      (to_hex (me.sign (compute_responder_transcript p m response))))))
  written_after_proof now later me mine init_msg nonce name state after arrival first second held
        h =
      (
        initiator_writes now me mine init_msg state arrival,
        responder_receive-trust_store now me mine nonce name state arrival,
        elim (responder_writes later mine held after second) [
          | inl same ↦ inl same
          | inr (n, framed_too, signed) ↦
              let (m, response, key, decision, waits) =
                responder_receive-Waits p now me mine nonce name state first held h in
              let (framed, _, (read, digest, _), sent, _, _, _, _) = waits in
              inr (
                m,
                n,
                response,
                key,
                framed,
                framed_too,
                (read, digest),
                sent,
                Waits-Signed p now me state first m response key decision _ held
                    (text_at "signature" n) waits signed,
              )
        ],
      )
