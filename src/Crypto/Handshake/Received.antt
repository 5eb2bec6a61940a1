-- ===== src/Crypto/Handshake/Received.antt =====
-- What the steps of a handshake do with the messages of an honest device.
use mathlib.Core.Path.{ap₂}
use peerc.Common.{◌≡◌, ◌≢◌, refl, ap, ◌∙◌, ℕ, true, String, str_eq, ok, arith}
use peerc.Protocol.Bytes.{Bytes}
use peerc.Protocol.Hex.{to_hex}
use peerc.Protocol.Values.{pos, object, Fields, get}
use peerc.Protocol.Messages.{validate_message}
use peerc.Protocol.Messages.Make.{
  make_handshake_init, make_handshake_response, make_handshake_finish,
}
use peerc.Protocol.Messages.Sent.{handshake_init, handshake_response, handshake_finish, message_of}
use peerc.Protocol.Messages.Accepted.{sent-accepted}
use peerc.Trust.Store.{TrustDecision}
use peerc.Crypto.Nonces.{check_and_add}
use peerc.Crypto.Handshake.{
  Primitives, DeviceKeypair, EphemeralKeypair, HandshakeResult, Arrival, frame, State,
}
use peerc.Crypto.Handshake.Transcript.{
  compute_responder_transcript, compute_initiator_transcript, compute_final_transcript_hash,
}
use peerc.Crypto.Handshake.Trusting.{check_trust, record_trust}
use peerc.Crypto.Handshake.Sides.{
  Outcome, Pending, text_at, typed, received, concluded, proven, initiator_start, initiator_finish,
  initiator_receive, respond, responder_receive, responder_finish,
}
use peerc.Crypto.Handshake.Honest.{
  IsHonest, unless_replayed-fresh, identified-honest, proven-honest,
}

received-valid :
    (kind : String) (m : Fields)
    → validate_message (object m) ≡ ok tt
    → str_eq (text_at "type" m) kind ≡ true
    → received kind (frame (object m)) ≡ ok m
unfolding received typed
received-valid kind m valid named = ground arith

pub received_init :
    (now : ℕ) (me : DeviceKeypair) (mine : EphemeralKeypair) (nonce name : String)
    → me.device_id ≢ ""
    → to_hex me.public_key ≢ ""
    → to_hex mine.public_key ≢ ""
    → nonce ≢ ""
    → let m = initiator_start now me mine nonce name in
      received "handshake_init" (frame (object m)) ≡ ok m
unfolding initiator_start message_of make_handshake_init get
received_init now me mine nonce name h k l n =
    received-valid "handshake_init" _
      (sent-accepted
        (handshake_init (pos now) me.device_id (to_hex me.public_key) (to_hex mine.public_key) nonce
          name)
        (h, k, l, n))
      refl

pub received_response :
    (now : ℕ) (device_id key ephemeral nonce name signature : String)
    → device_id ≢ ""
    → key ≢ ""
    → ephemeral ≢ ""
    → nonce ≢ ""
    → signature ≢ ""
    → let m = make_handshake_response (pos now) device_id key ephemeral nonce name signature in
      received "handshake_response" (frame (object m)) ≡ ok m
unfolding message_of make_handshake_response get
received_response now device_id key ephemeral nonce name signature h k l n q =
    received-valid "handshake_response" _
      (sent-accepted (handshake_response (pos now) device_id key ephemeral nonce name signature)
        (h, k, l, n, q))
      refl

pub received_finish :
    (now : ℕ) (signature : String)
    → signature ≢ ""
    → let m = make_handshake_finish (pos now) signature in
      received "handshake_finish" (frame (object m)) ≡ ok m
unfolding message_of make_handshake_finish get
received_finish now signature h =
    received-valid "handshake_finish" _ (sent-accepted (handshake_finish (pos now) signature) h)
      refl

-- A message in which a side names itself.
abbrev pub Names : DeviceKeypair → Fields → Type 0
Names me m =
    (text_at "device_id" m ≡ me.device_id) × (text_at "public_key" m ≡ to_hex me.public_key)

module _ (p : Primitives) where
  pub responder_receive-known :
      (now : ℕ) (me peer : DeviceKeypair) (mine : EphemeralKeypair) (nonce name : String)
      (state : State) (arrival : Arrival) (m : Fields) (decision : TrustDecision)
      → IsHonest p peer
      → received "handshake_init" arrival ≡ ok m
      → Names peer m
      → (check_and_add state.nonce_cache (text_at "nonce" m) now).1 ≡ true
      → check_trust state.trust_store peer.device_id (to_hex peer.public_key) ≡ ok decision
      → responder_receive p now me mine nonce name state arrival
        ≡ respond p now me mine nonce name m
            (record state {
              nonce_cache = (check_and_add state.nonce_cache (text_at "nonce" m) now).0;
            })
            peer.public_key
            decision
  unfolding responder_receive
  responder_receive-known now me peer mine nonce name state arrival m decision honest read names
        fresh allowed =
      rw (read, responder_receive)
        (unless_replayed-fresh p now m state _ fresh
          ∙ identified-honest p peer m _ _ decision honest names.0 names.1 allowed)

  pub initiator_receive-known :
      (now : ℕ) (me peer : DeviceKeypair) (mine : EphemeralKeypair) (init_msg : Fields)
      (state : State) (arrival : Arrival) (m : Fields) (pre decision : TrustDecision)
      → let transcript = compute_responder_transcript p init_msg m in
        let seen = record state {
          nonce_cache = (check_and_add state.nonce_cache (text_at "nonce" m) now).0;
        } in
        let written =
          record_trust now state.trust_store
            (text_at "device_id" m)
            (text_at "public_key" m)
            (text_at "sender_name" m)
            pre in
        IsHonest p peer
        → received "handshake_response" arrival ≡ ok m
        → Names peer m
        → (check_and_add state.nonce_cache (text_at "nonce" m) now).1 ≡ true
        → check_trust state.trust_store peer.device_id (to_hex peer.public_key) ≡ ok pre
        → text_at "signature" m ≡ to_hex (peer.sign transcript)
        → written.1 ≡ ok decision
        → initiator_receive p now me mine init_msg state arrival
          ≡ initiator_finish p now me mine m transcript
              (record seen { trust_store = written.0 })
              decision
  unfolding initiator_receive
  initiator_receive-known now me peer mine init_msg state arrival m pre decision honest read names
        fresh allowed signed done =
      let transcript = compute_responder_transcript p init_msg m in
      let seen = record state {
        nonce_cache = (check_and_add state.nonce_cache (text_at "nonce" m) now).0;
      } in
      let finish = initiator_finish p now me mine m transcript in
      rw (read, initiator_receive)
        (unless_replayed-fresh p now m state _ fresh
          ∙ identified-honest p peer m _ _ pre honest names.0 names.1 allowed
          ∙ ap (λ (s : String). proven p now m peer.public_key pre s transcript seen finish) signed
          ∙ proven-honest p now peer m pre decision transcript seen finish honest done)

  proven_signed :
      {A : Type 0} (now : ℕ) (peer : DeviceKeypair) (m : Fields) (key : Bytes)
      (pre decision : TrustDecision) (signature : String) (transcript : Bytes) (state : State)
      (rest : State → TrustDecision → Outcome A)
      → let written =
          record_trust now state.trust_store
            (text_at "device_id" m)
            (text_at "public_key" m)
            (text_at "sender_name" m)
            pre in
        IsHonest p peer
        → key ≡ peer.public_key
        → signature ≡ to_hex (peer.sign transcript)
        → written.1 ≡ ok decision
        → proven p now m key pre signature transcript state rest
          ≡ rest (record state { trust_store = written.0 }) decision
  proven_signed now peer m key pre decision signature transcript state rest honest keyed signed
        done =
      ap₂ (λ (k : Bytes) (s : String). proven p now m k pre s transcript state rest) keyed signed
      ∙ proven-honest p now peer m pre decision transcript state rest honest done

  pub responder_finish-known :
      (now : ℕ) (peer : DeviceKeypair) (mine : EphemeralKeypair) (held : Pending) (state : State)
      (arrival : Arrival) (n : Fields) (decision : TrustDecision)
      → let transcript = compute_initiator_transcript held.resp_transcript held.my_signature in
        IsHonest p peer
        → received "handshake_finish" arrival ≡ ok n
        → held.public_key ≡ peer.public_key
        → text_at "signature" n ≡ to_hex (peer.sign transcript)
        → (record_trust now state.trust_store
            (text_at "device_id" held.init_msg)
            (text_at "public_key" held.init_msg)
            (text_at "sender_name" held.init_msg)
            held.pre_decision).1
          ≡ ok decision
        → (responder_finish p now mine held state arrival).result
          ≡ concluded p mine held.init_msg
              (compute_final_transcript_hash p transcript (to_hex (peer.sign transcript)))
              decision
  unfolding responder_finish
  responder_finish-known now peer mine held state arrival n decision honest read key signed done =
      let transcript = compute_initiator_transcript held.resp_transcript held.my_signature in
      rw (read, responder_finish)
        (ap (λ (o : Outcome HandshakeResult). o.result)
            (proven_signed now peer held.init_msg held.public_key held.pre_decision decision
              (text_at "signature" n) transcript state _ honest key signed done)
          ∙ ap
              (λ (s : String).
                concluded p mine held.init_msg (compute_final_transcript_hash p transcript s)
                  decision)
              signed)
