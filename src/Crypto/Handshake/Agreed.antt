-- ===== src/Crypto/Handshake/Agreed.antt =====
-- Two honest devices complete the handshake and agree.
use peerc.Common.{◌≡◌, ◌≢◌, refl, ap, ◌∙◌, ℕ, [], ◌∷◌, true, some, String, ok}
use peerc.Protocol.Bytes.{Bytes}
use peerc.Protocol.Hex.{to_hex}
use peerc.Protocol.Values.{pos, object, text, fields, Fields, get}
use peerc.Protocol.Messages.Make.{
  make_handshake_init, make_handshake_response, make_handshake_finish,
}
use peerc.Trust.Store.{TrustDecision}
use peerc.Crypto.Nonces.{check_and_add}
use peerc.Crypto.Handshake.{
  Primitives, DeviceKeypair, EphemeralKeypair, HandshakeResult, frame, State,
}
use peerc.Crypto.Handshake.Transcript.{
  signed_fields, compute_responder_transcript, compute_initiator_transcript,
  compute_final_transcript_hash,
}
use peerc.Crypto.Handshake.Trusting.{check_trust, record_trust}
use peerc.Crypto.Handshake.Sides.{
  Outcome, Pending, initiator_start, initiator_finish, initiator_receive, respond,
  responder_receive, responder_finish,
}
use peerc.Crypto.Handshake.Honest.{IsHonest, IsEphemeral, concluded-agrees}
use peerc.Crypto.Handshake.Received.{
  responder_receive-known, initiator_receive-known, responder_finish-known, received_init,
  received_response, received_finish,
}

-- One end of a handshake, with the clock, the nonce and the name that it uses.
pub record Side : Type 0 where
  pub me : DeviceKeypair
  pub mine : EphemeralKeypair
  pub nonce : String
  pub name : String
  pub now : ℕ
  pub state : State

-- The state after a nonce was taken in.
abbrev pub after_nonce : Side → String → State
after_nonce s nonce = record s.state {
  nonce_cache = (check_and_add s.state.nonce_cache nonce s.now).0;
}

-- A side is ready for the other: it has not seen the other's nonce, its trust store does not refuse
-- the other, and the record of the other does not fail.
pub record Accepts (s other : Side) : Type 0 where
  pub pre_decision : TrustDecision
  pub decision : TrustDecision
  pub fresh : (check_and_add s.state.nonce_cache other.nonce s.now).1 ≡ true
  pub allowed :
      check_trust s.state.trust_store other.me.device_id (to_hex other.me.public_key)
      ≡ ok pre_decision
  pub done :
      (record_trust s.now s.state.trust_store other.me.device_id
        (to_hex other.me.public_key)
        other.name
        pre_decision).1
      ≡ ok decision

module _ (p : Primitives) (a b : Side) where
  abbrev init_msg : Fields
  init_msg = initiator_start a.now a.me a.mine a.nonce a.name

  abbrev unsigned : Fields
  unsigned = fields (
      ("type", text "handshake_response")
      ∷ ("device_id", text b.me.device_id)
      ∷ ("public_key", text (to_hex b.me.public_key))
      ∷ ("ephemeral_key", text (to_hex b.mine.public_key))
      ∷ ("nonce", text b.nonce)
      ∷ ("sender_name", text b.name)
      ∷ [])

  abbrev transcript : Bytes
  transcript = compute_responder_transcript p init_msg unsigned

  abbrev b_signature : String
  b_signature = to_hex (b.me.sign transcript)

  abbrev resp_msg : Fields
  resp_msg =
      make_handshake_response (pos b.now) b.me.device_id (to_hex b.me.public_key)
        (to_hex b.mine.public_key) b.nonce b.name b_signature

  abbrev init_transcript : Bytes
  init_transcript = compute_initiator_transcript transcript b_signature

  abbrev a_signature : String
  a_signature = to_hex (a.me.sign init_transcript)

  abbrev held : TrustDecision → Pending
  held pre = record {
    init_msg = init_msg;
    public_key = a.me.public_key;
    pre_decision = pre;
    resp_transcript = transcript;
    my_signature = b_signature;
  }

  abbrev result_of : Side → Bytes → TrustDecision → HandshakeResult
  result_of other secret decision = record {
    peer_device_id = other.me.device_id;
    peer_public_key = to_hex other.me.public_key;
    peer_name = other.name;
    shared_secret = secret;
    transcript_hash = compute_final_transcript_hash p init_transcript a_signature;
    trust_decision = decision;
  }

  response_transcript : compute_responder_transcript p init_msg resp_msg ≡ transcript
  unfolding compute_responder_transcript signed_fields make_handshake_response get
  response_transcript = refl

  first_step :
      IsHonest p a.me
      → IsEphemeral a.mine
      → a.nonce ≢ ""
      → (accepts : Accepts b a)
      → responder_receive p b.now b.me b.mine b.nonce b.name b.state (frame (object init_msg))
        ≡ respond p b.now b.me b.mine b.nonce b.name init_msg
            (after_nonce b a.nonce)
            a.me.public_key
            accepts.pre_decision
  unfolding initiator_start make_handshake_init get
  first_step honest eph there accepts =
      responder_receive-known p b.now b.me a.me b.mine b.nonce b.name b.state _ init_msg
        accepts.pre_decision honest
        (received_init a.now a.me a.mine a.nonce a.name honest.named honest.key_there eph.key_there
          there)
        (refl, refl) accepts.fresh accepts.allowed

  respond_lem :
      (state : State) (pre : TrustDecision)
      → let o = respond p b.now b.me b.mine b.nonce b.name init_msg state a.me.public_key pre in
        (o.sent ≡ resp_msg ∷ []) × (o.result ≡ ok (held pre)) × (o.state ≡ state)
  unfolding respond
  respond_lem state pre = (refl, refl, refl)

  second_step :
      IsHonest p b.me
      → IsEphemeral b.mine
      → b.nonce ≢ ""
      → (accepts : Accepts a b)
      → (after : State) × (initiator_receive p a.now a.me a.mine init_msg a.state
            (frame (object resp_msg))
          ≡ initiator_finish p a.now a.me a.mine resp_msg transcript after accepts.decision)
  unfolding compute_responder_transcript signed_fields make_handshake_response get
  second_step honest eph there accepts = (
    _,
    initiator_receive-known p a.now a.me b.me a.mine init_msg a.state _ resp_msg
        accepts.pre_decision accepts.decision honest
        (received_response b.now b.me.device_id (to_hex b.me.public_key) (to_hex b.mine.public_key)
          b.nonce b.name b_signature honest.named honest.key_there eph.key_there there
          (honest.sign_there transcript))
        (refl, refl) accepts.fresh accepts.allowed refl accepts.done,
  )

  initiator_finish_lem :
      (secret : Bytes) (after : State) (decision : TrustDecision)
      → IsEphemeral b.mine
      → p.exchange a.mine.private_key b.mine.public_key ≡ some secret
      → let o = initiator_finish p a.now a.me a.mine resp_msg transcript after decision in
        (o.sent ≡ make_handshake_finish (pos a.now) a_signature ∷ [])
        × (o.result ≡ ok (result_of b secret decision))
  unfolding initiator_finish make_handshake_response get
  initiator_finish_lem secret after decision eph same =
      (refl, concluded-agrees p a.mine b.mine resp_msg _ secret decision eph refl same)

  third_step :
      (secret : Bytes)
      → IsHonest p a.me
      → IsEphemeral a.mine
      → (accepts : Accepts b a) → p.exchange b.mine.private_key a.mine.public_key ≡ some secret
      → (responder_finish p b.now b.mine
          (held accepts.pre_decision)
          (after_nonce b a.nonce)
          (frame (object (make_handshake_finish (pos a.now) a_signature)))).result
        ≡ ok (result_of a secret accepts.decision)
  unfolding initiator_start make_handshake_init make_handshake_finish get
  third_step secret honest eph accepts same =
      responder_finish-known p b.now a.me b.mine (held accepts.pre_decision) (after_nonce b a.nonce)
        _ (make_handshake_finish (pos a.now) a_signature) accepts.decision honest
        (received_finish a.now a_signature (honest.sign_there init_transcript)) refl refl
        accepts.done
      ∙ concluded-agrees p b.mine a.mine init_msg _ secret accepts.decision eph refl same

  -- Two honest devices that do not refuse each other, with fresh nonces and an exchange that works,
  -- complete the handshake when each message of one reaches the other: both end with the same secret
  -- and the same transcript hash, and each names the other.
  pub handshake_agrees :
      (secret : Bytes)
      → IsHonest p a.me
      → IsHonest p b.me
      → IsEphemeral a.mine
      → IsEphemeral b.mine
      → a.nonce ≢ ""
      → b.nonce ≢ ""
      → (a_accepts : Accepts a b) → (b_accepts : Accepts b a)
      → p.exchange a.mine.private_key b.mine.public_key ≡ some secret
      → p.exchange b.mine.private_key a.mine.public_key ≡ some secret
      → (response finish : Fields) × (waiting : Pending) × (initiated accepted : HandshakeResult)
        × (let first =
              responder_receive p b.now b.me b.mine b.nonce b.name b.state
                (frame (object (initiator_start a.now a.me a.mine a.nonce a.name))) in
            let second =
              initiator_receive p a.now a.me a.mine
                (initiator_start a.now a.me a.mine a.nonce a.name)
                a.state
                (frame (object response)) in
            let third =
              responder_finish p b.now b.mine waiting first.state (frame (object finish)) in
            (first.sent ≡ response ∷ [])
            × (first.result ≡ ok waiting)
            × (second.sent ≡ finish ∷ [])
            × (second.result ≡ ok initiated)
            × (third.result ≡ ok accepted))
        × (initiated.peer_device_id ≡ b.me.device_id)
        × (accepted.peer_device_id ≡ a.me.device_id)
        × (initiated.shared_secret ≡ accepted.shared_secret)
        × (initiated.transcript_hash ≡ accepted.transcript_hash)
  handshake_agrees secret ha hb ea eb na nb aa bb same same' =
      let first = first_step ha ea na bb in
      let (sent, waiting, kept) = respond_lem (after_nonce b a.nonce) bb.pre_decision in
      let (after, second) = second_step hb eb nb aa in
      let (finish, done) = initiator_finish_lem secret after aa.decision eb same in
      let finish_msg = make_handshake_finish (pos a.now) a_signature in
      (
        resp_msg,
        finish_msg,
        held bb.pre_decision,
        result_of b secret aa.decision,
        result_of a secret bb.decision,
        (
          ap (λ (o : Outcome Pending). o.sent) first ∙ sent,
          ap (λ (o : Outcome Pending). o.result) first ∙ waiting,
          ap (λ (o : Outcome HandshakeResult). o.sent) second ∙ finish,
          ap (λ (o : Outcome HandshakeResult). o.result) second ∙ done,
          ap
                (λ (s : State).
                  (responder_finish p b.now b.mine (held bb.pre_decision) s
                    (frame (object finish_msg))).result)
                (ap (λ (o : Outcome Pending). o.state) first ∙ kept)
              ∙ third_step secret ha ea bb same',
        ),
        refl,
        refl,
        refl,
        refl,
      )
