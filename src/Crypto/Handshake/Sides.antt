-- ===== src/Crypto/Handshake/Sides.antt =====
-- `perform_handshake_initiator` and `perform_handshake_responder`, cut where they wait for the peer.
-- A side keeps in `State` what it wrote before it failed.
use peerc.Common.{
  ℕ, List, [], ◌∷◌, not, ◌==◌, none, some, String, str_eq, if◌then◌else◌, length, Result, ok, err,
  ◌>>=◌,
}
use peerc.Protocol.Bytes.{Bytes}
use peerc.Protocol.Hex.{to_hex, from_hex}
use peerc.Protocol.Values.{pos, Value, text, object, Fields, fields, get}
use peerc.Protocol.ErrorMessages.{text_or_empty}
use peerc.Protocol.Messages.{validate_message}
use peerc.Protocol.Messages.Make.{
  make_handshake_init, make_handshake_response, make_handshake_finish,
}
use peerc.Trust.Store.{TrustDecision}
use peerc.Crypto.Nonces.{check_and_add}
use peerc.Crypto.Handshake.{
  Primitives, DeviceKeypair, EphemeralKeypair, HandshakeResult, HandshakeError, timed_out,
  signature_verification, read_failed, invalid_message, unexpected_type, replayed,
  invalid_ephemeral_key, invalid_key, Arrival, timeout, failure, frame, State, SecurityEvent,
  replay_detected, auth_failed,
}
use peerc.Crypto.Handshake.Transcript.{
  compute_responder_transcript, compute_initiator_transcript, compute_final_transcript_hash,
}
use peerc.Crypto.Handshake.Trusting.{verify_device_identity, check_trust, record_trust}

-- The state after a step, the messages and events that went out, and what it returned or raised.
pub record Outcome (A : Type 0) : Type 0 where
  pub state : State
  pub sent : List Fields
  pub events : List SecurityEvent
  pub result : Result HandshakeError A

-- What the responder holds while it waits for the finish.
pub record Pending : Type 0 where
  pub init_msg : Fields
  pub public_key : Bytes
  pub pre_decision : TrustDecision
  pub resp_transcript : Bytes
  pub my_signature : String

abbrev pub fail : {A : Type 0} → State → List SecurityEvent → HandshakeError → Outcome A
fail state events e = record { state = state; sent = []; events = events; result = err e }

-- message[name], for a field that the check has seen to be a text.
abbrev pub text_at : String → Fields → String
text_at name m = text_or_empty (get name m)

unfoldable pub typed : String → Value → Result HandshakeError Fields
typed kind (object m) = if str_eq (text_at "type" m) kind then ok m else err unexpected_type
typed kind _ = err invalid_message

-- Reading one message, with the checks that follow it.
unfoldable pub received : String → Arrival → Result HandshakeError Fields
unfolding typed
received kind timeout = err timed_out
received kind failure = err read_failed
received kind (frame v) = elim (validate_message v) [
  | err e ↦ err invalid_message
  | ok _ ↦ typed kind v
]

-- Step 2 of the initiator.
unfoldable pub initiator_start : ℕ → DeviceKeypair → EphemeralKeypair → String → String → Fields
initiator_start now me mine nonce name =
    make_handshake_init (pos now) me.device_id (to_hex me.public_key) (to_hex mine.public_key) nonce
      name

module _ (p : Primitives) where
  open p use {is_public_key, verify, exchange}

  -- `public_key_from_bytes` and the block that verifies a signature.
  unfoldable pub check_signature :
      String → Bytes → String → Bytes → List SecurityEvent × Result HandshakeError (Unit {0})
  check_signature device_id public_key signature transcript =
      if not (is_public_key public_key) then ([], err invalid_key) else elim (from_hex signature) [
        | none ↦ (auth_failed device_id ∷ [], err signature_verification)
        | some sig_bytes ↦
            if verify public_key sig_bytes transcript
            then ([], ok tt)
            else (auth_failed device_id ∷ [], err signature_verification)
      ]

  -- `ephemeral_public_from_hex` and `compute_shared_secret`.
  unfoldable pub agree : EphemeralKeypair → String → Result HandshakeError Bytes
  agree mine peer_hex = elim (from_hex peer_hex) [
    | none ↦ err invalid_ephemeral_key
    | some raw ↦
        if not (length raw == 32)
        then err invalid_ephemeral_key
        else elim (exchange mine.private_key raw) [ none ↦ err invalid_key | some s ↦ ok s ]
  ]

  -- The last step of both sides: the shared secret, and the result.
  unfoldable pub concluded :
      EphemeralKeypair → Fields → Bytes → TrustDecision → Result HandshakeError HandshakeResult
  concluded mine m transcript_hash decision = do
    secret ← agree mine (text_at "ephemeral_key" m)
    ok (record {
      peer_device_id = text_at "device_id" m;
      peer_public_key = text_at "public_key" m;
      peer_name = text_at "sender_name" m;
      shared_secret = secret;
      transcript_hash = transcript_hash;
      trust_decision = decision;
    })

  -- `check_and_add` of the nonce in a message, then the rest.
  unfoldable pub unless_replayed :
      {A : Type 0} → ℕ → Fields → State → (State → Outcome A) → Outcome A
  unless_replayed now m state rest =
      let (cache, fresh) = check_and_add state.nonce_cache (text_at "nonce" m) now in
      let seen = record state { nonce_cache = cache } in
      if fresh then rest seen else fail seen (replay_detected (text_at "device_id" m) ∷ []) replayed

  -- The identity and the trust check, then the rest.
  unfoldable pub identified :
      {A : Type 0} → Fields → State → (Bytes → TrustDecision → Outcome A) → Outcome A
  identified m state rest =
      let device_id = text_at "device_id" m in
      let (events, identity) = verify_device_identity p device_id (text_at "public_key" m) in
      elim identity [
        | err e ↦ fail state events e
        | ok public_key ↦ elim (check_trust state.trust_store device_id (text_at "public_key" m)) [
          | err e ↦ fail state [] e
          | ok decision ↦ rest public_key decision
        ]
      ]

  -- A signature of the peer over a transcript, and only then the record of it; then the rest.
  unfoldable pub proven :
      {A : Type 0}
      → ℕ
      → Fields
      → Bytes
      → TrustDecision
      → String
      → Bytes
      → State
      → (State → TrustDecision → Outcome A)
      → Outcome A
  proven now m public_key pre_decision signature transcript state rest =
      let device_id = text_at "device_id" m in
      let (events, verified) = check_signature device_id public_key signature transcript in
      elim verified [
        | err e ↦ fail state events e
        | ok _ ↦
            let (store, recorded) =
              record_trust now state.trust_store device_id (text_at "public_key" m)
                (text_at "sender_name" m) pre_decision in
            elim recorded [
              | err e ↦ fail (record state { trust_store = store }) [] e
              | ok decision ↦ rest (record state { trust_store = store }) decision
            ]
      ]

  -- Steps 8 to 10 of the initiator.
  unfoldable pub initiator_finish :
      ℕ
      → DeviceKeypair
      → EphemeralKeypair
      → Fields
      → Bytes
      → State
      → TrustDecision
      → Outcome HandshakeResult
  initiator_finish now me mine m resp_transcript state decision =
      let init_transcript = compute_initiator_transcript resp_transcript (text_at "signature" m) in
      let my_signature = to_hex (me.sign init_transcript) in
      record {
        state = state;
        sent = make_handshake_finish (pos now) my_signature ∷ [];
        events = [];
        result =
            concluded mine m (compute_final_transcript_hash p init_transcript my_signature)
              decision;
      }

  -- Steps 3 to 10 of the initiator, after it sent `init_msg`.
  unfoldable pub initiator_receive :
      ℕ → DeviceKeypair → EphemeralKeypair → Fields → State → Arrival → Outcome HandshakeResult
  initiator_receive now me mine init_msg state arrival =
      elim (received "handshake_response" arrival) [
        | err e ↦ fail state [] e
        | ok m ↦ unless_replayed now m state (λ seen. identified m seen (λ public_key pre_decision.
            let resp_transcript = compute_responder_transcript p init_msg m in
            proven now m public_key pre_decision (text_at "signature" m) resp_transcript seen
              (initiator_finish now me mine m resp_transcript)))
      ]

  -- Steps 5 to 7 of the responder.
  unfoldable pub respond :
      ℕ
      → DeviceKeypair
      → EphemeralKeypair
      → String
      → String
      → Fields
      → State
      → Bytes
      → TrustDecision
      → Outcome Pending
  respond now me mine nonce name m state public_key pre_decision =
      let my_pub_hex = to_hex me.public_key in
      let resp_msg_no_sig = fields (
        ("type", text "handshake_response")
        ∷ ("device_id", text me.device_id)
        ∷ ("public_key", text my_pub_hex)
        ∷ ("ephemeral_key", text (to_hex mine.public_key))
        ∷ ("nonce", text nonce)
        ∷ ("sender_name", text name)
        ∷ []) in
      let resp_transcript = compute_responder_transcript p m resp_msg_no_sig in
      let my_signature = to_hex (me.sign resp_transcript) in
      record {
        state = state;
        sent =
            make_handshake_response (pos now) me.device_id my_pub_hex (to_hex mine.public_key) nonce
              name my_signature
            ∷ [];
        events = [];
        result = ok (record {
          init_msg = m;
          public_key = public_key;
          pre_decision = pre_decision;
          resp_transcript = resp_transcript;
          my_signature = my_signature;
        });
      }

  -- Steps 1 to 7 of the responder.
  unfoldable pub responder_receive :
      ℕ → DeviceKeypair → EphemeralKeypair → String → String → State → Arrival → Outcome Pending
  responder_receive now me mine nonce name state arrival =
      elim (received "handshake_init" arrival) [
        | err e ↦ fail state [] e
        | ok m ↦
            unless_replayed now m state
              (λ seen. identified m seen (respond now me mine nonce name m seen))
      ]

  -- Steps 8 to 10 of the responder.
  unfoldable pub responder_finish :
      ℕ → EphemeralKeypair → Pending → State → Arrival → Outcome HandshakeResult
  responder_finish now mine held state arrival = elim (received "handshake_finish" arrival) [
    | err e ↦ fail state [] e
    | ok finish_msg ↦
        let signature = text_at "signature" finish_msg in
        let init_transcript = compute_initiator_transcript held.resp_transcript held.my_signature in
        proven now held.init_msg held.public_key held.pre_decision signature init_transcript state
          (λ after decision. record {
            state = after;
            sent = [];
            events = [];
            result =
                concluded mine held.init_msg
                  (compute_final_transcript_hash p init_transcript signature) decision;
          })
  ]
