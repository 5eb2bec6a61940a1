-- ===== src/Crypto/Handshake/Examples.antt =====
-- The toy devices shake hands.
use Prim.Native.Char.{code}
use Prim.Native.String as Text
use package.text.Mathlib.TextEquality.{Char-path}
use mathlib.Core.Path.{ap₂}
use peerc.Common.{
  inl, ◌≡◌, ◌≢◌, refl, ◌⊎◌, ℕ, [], ◌∷◌, All, replicate, true, none, some, String, eq_iff, ok, err,
  arith,
}
use peerc.Common.Dicts.{lookup, insert, keep_if}
use peerc.Protocol.Bytes.{Bytes}
use peerc.Protocol.Hex.{to_hex, from_hex, codes}
use peerc.Protocol.Values.{pos, object, Fields, get}
use peerc.Protocol.Schema.{required_fields, missing}
use peerc.Protocol.Messages.{check_fields, validate_message}
use peerc.Protocol.Messages.Make.{
  make_handshake_init, make_handshake_response, make_handshake_finish,
}
use peerc.Group.Policy.{check_external_trust}
use peerc.Trust.Store.{
  approve, TrustStore, TrustedDevice, revoked, TrustDecision, unknown, pending, check,
  record_first_seen,
}
use peerc.Crypto.Nonces.{check_and_add}
use peerc.Crypto.Handshake.{State, HandshakeResult, frame, timed_out, timeout}
use peerc.Crypto.Handshake.Transcript.{
  newline, signed_fields, compute_responder_transcript, compute_initiator_transcript,
  compute_final_transcript_hash,
}
use peerc.Crypto.Handshake.Trusting.{check_trust, record_trust, verify_device_identity}
use peerc.Crypto.Handshake.Sides.{
  Pending, text_at, received, typed, check_signature, agree, concluded, unless_replayed, identified,
  proven, initiator_start, initiator_finish, initiator_receive, respond, responder_receive,
  responder_finish,
}
use peerc.Crypto.Handshake.Proven.{Signed, Identified, initiator_authenticates}
use peerc.Crypto.Handshake.Responding.{responder_authenticates}
use peerc.Crypto.Handshake.Writes.{Names, written_after_proof}
use peerc.Crypto.Handshake.Refused.{revoked_never_completes}
use peerc.Trust.Store.Lasting.{approval, perform, perform_all}
use peerc.Crypto.Handshake.Agreed.{handshake_agrees}
use peerc.Crypto.Handshake.Binding.{SignedFields, HasFields, dict_of, responder_transcript_binds}
use peerc.Crypto.Handshake.Toy.{
  line, toy_json, toy, alice_device, bob_device, no_nonces, no_devices, alice, bob, alice-IsHonest,
  bob-IsHonest, three-IsEphemeral, four-IsEphemeral, alice-Accepts, bob-Accepts,
}

abbrev hello : Fields
hello = initiator_start alice.now alice_device alice.mine alice.nonce alice.name

abbrev answer : Fields
answer = make_handshake_response (pos 6) "02" "02" (to_hex (replicate 32 4)) "nb" "Bob" "02"

abbrev finish : Fields
finish = make_handshake_finish (pos 5) "01"

abbrev initiated : HandshakeResult
initiated = record {
  peer_device_id = "02";
  peer_public_key = "02";
  peer_name = "Bob";
  shared_secret = replicate 32 7;
  transcript_hash = 257 ∷ [];
  trust_decision = unknown;
}

-- Tests.
alice_done :
    (initiator_receive toy alice.now alice_device alice.mine hello alice.state
      (frame (object answer))).result
    ≡ ok initiated
unfolding initiator_receive received typed validate_message required_fields missing check_fields get
    unless_replayed check_and_add keep_if lookup identified verify_device_identity from_hex to_hex
    check_trust proven check_signature record_trust initiator_finish concluded agree initiator_start
    make_handshake_init make_handshake_response signed_fields compute_responder_transcript
    compute_initiator_transcript compute_final_transcript_hash codes
alice_done = refl

abbrev bob_transcript : Bytes
bob_transcript = compute_responder_transcript toy hello answer

abbrev waiting : Pending
waiting = record {
  init_msg = hello;
  public_key = 1 ∷ [];
  pre_decision = unknown;
  resp_transcript = bob_transcript;
  my_signature = "02";
}

abbrev accepted : HandshakeResult
accepted = record {
  peer_device_id = "01";
  peer_public_key = "01";
  peer_name = "Alice";
  shared_secret = replicate 32 7;
  transcript_hash = 257 ∷ [];
  trust_decision = pending;
}

bob_waits :
    (responder_receive toy 6 bob_device bob.mine "nb" "Bob" bob.state (frame (object hello))).result
    ≡ ok waiting
unfolding initiator_receive received typed validate_message required_fields missing check_fields get
    unless_replayed check_and_add keep_if lookup identified verify_device_identity from_hex to_hex
    check_trust proven check_signature record_trust initiator_finish concluded agree initiator_start
    make_handshake_init make_handshake_response make_handshake_finish signed_fields
    compute_responder_transcript compute_initiator_transcript compute_final_transcript_hash codes
    responder_receive respond responder_finish check record_first_seen check_external_trust insert
bob_waits = refl

bob_done :
    (responder_finish toy 7 bob.mine waiting bob.state (frame (object finish))).result ≡ ok accepted
unfolding initiator_receive received typed validate_message required_fields missing check_fields get
    unless_replayed check_and_add keep_if lookup identified verify_device_identity from_hex to_hex
    check_trust proven check_signature record_trust initiator_finish concluded agree initiator_start
    make_handshake_init make_handshake_response make_handshake_finish signed_fields
    compute_responder_transcript compute_initiator_transcript compute_final_transcript_hash codes
    responder_receive respond responder_finish check record_first_seen check_external_trust insert
bob_done = refl

late : (responder_finish toy 7 bob.mine waiting bob.state timeout).result ≡ err timed_out
unfolding responder_finish received
late = refl

-- Witnesses.
initiator_authenticates_example :
    (m : Fields) × (key : Bytes) × (decision : TrustDecision) × (frame (object answer)
      ≡ frame (object m))
    × ((check_and_add no_nonces (text_at "nonce" m) 5).1 ≡ true)
    × Identified toy m alice.state key decision
    × Signed toy m key (text_at "signature" m) (compute_responder_transcript toy hello m)
    × (initiated.peer_device_id ≡ text_at "device_id" m)
    × (initiated.peer_public_key ≡ text_at "public_key" m)
initiator_authenticates_example =
    initiator_authenticates toy 5 alice_device alice.mine hello alice.state (frame (object answer))
      initiated alice_done

responder_authenticates_example :
    (m n : Fields) × (key : Bytes) × (decision : TrustDecision) × (frame (object hello)
      ≡ frame (object m))
    × (frame (object finish) ≡ frame (object n))
    × ((check_and_add no_nonces (text_at "nonce" m) 6).1 ≡ true)
    × Identified toy m bob.state key decision
    × ((response : Fields) × ((responder_receive toy 6 bob_device bob.mine "nb" "Bob" bob.state
            (frame (object hello))).sent
          ≡ response ∷ [])
        × Signed toy m key (text_at "signature" n) (
            compute_initiator_transcript
              (compute_responder_transcript toy m response)
              (to_hex (bob_device.sign (compute_responder_transcript toy m response)))))
    × (accepted.peer_device_id ≡ text_at "device_id" m)
    × (accepted.peer_public_key ≡ text_at "public_key" m)
responder_authenticates_example =
    responder_authenticates toy 6 7 bob_device bob.mine "nb" "Bob" bob.state bob.state
      (frame (object hello)) (frame (object finish)) waiting accepted bob_waits bob_done

written_after_proof_example :
    (((initiator_receive toy 6 bob_device bob.mine hello bob.state
          (frame (object answer))).state.trust_store
        ≡ bob.state.trust_store)
      ⊎ ((m : Fields) × (key : Bytes) × (frame (object answer) ≡ frame (object m))
          × Names toy m key
          × Signed toy m key (text_at "signature" m) (compute_responder_transcript toy hello m)))
    × ((responder_receive toy 6 bob_device bob.mine "nb" "Bob" bob.state
          (frame (object answer))).state.trust_store
        ≡ bob.state.trust_store)
    × (((responder_finish toy 7 bob.mine waiting bob.state
            (frame (object finish))).state.trust_store
          ≡ bob.state.trust_store)
        ⊎ ((m n response : Fields) × (key : Bytes) × (frame (object hello) ≡ frame (object m))
            × (frame (object finish) ≡ frame (object n))
            × Names toy m key
            × ((responder_receive toy 6 bob_device bob.mine "nb" "Bob" bob.state
                  (frame (object hello))).sent
                ≡ response ∷ [])
            × Signed toy m key (text_at "signature" n) (
                compute_initiator_transcript
                  (compute_responder_transcript toy m response)
                  (to_hex (bob_device.sign (compute_responder_transcript toy m response))))))
written_after_proof_example =
    written_after_proof toy 6 7 bob_device bob.mine hello "nb" "Bob" bob.state bob.state
      (frame (object answer)) (frame (object hello)) (frame (object finish)) waiting bob_waits

handshake_agrees_example :
    (response finish : Fields) × (waiting : Pending) × (initiated accepted : HandshakeResult)
    × (let first =
          responder_receive toy 6 bob_device bob.mine "nb" "Bob" bob.state (frame (object hello)) in
        let second =
          initiator_receive toy 5 alice_device alice.mine hello alice.state
            (frame (object response)) in
        let third = responder_finish toy 6 bob.mine waiting first.state (frame (object finish)) in
        (first.sent ≡ response ∷ [])
        × (first.result ≡ ok waiting)
        × (second.sent ≡ finish ∷ [])
        × (second.result ≡ ok initiated)
        × (third.result ≡ ok accepted))
    × (initiated.peer_device_id ≡ "02")
    × (accepted.peer_device_id ≡ "01")
    × (initiated.shared_secret ≡ accepted.shared_secret)
    × (initiated.transcript_hash ≡ accepted.transcript_hash)
handshake_agrees_example =
    handshake_agrees toy alice bob (replicate 32 7) alice-IsHonest bob-IsHonest three-IsEphemeral
      four-IsEphemeral (λ e. ground (arith, eq_iff "na" "")) (λ e. ground (arith, eq_iff "nb" ""))
      alice-Accepts bob-Accepts refl refl

abbrev mallory : TrustedDevice
mallory = record {
  device_id = "07";
  public_key = "07";
  name = "Mallory";
  first_seen = 1;
  last_seen = 1;
  status = revoked;
  revoked_by = some "02";
  revoked_at = some 2;
  revoke_reason = none;
}

abbrev wary : TrustStore
wary = record no_devices { devices = ("07", mallory) ∷ [] }

mallory_known : lookup "07" wary.devices ≡ some mallory
unfolding lookup
mallory_known = refl

abbrev wary_later : TrustStore
wary_later = perform_all (λ cert. true) wary (approval "07" ∷ [])

abbrev careful : State
careful = record { nonce_cache = no_nonces; trust_store = some wary_later }

abbrev met : HandshakeResult
met = record initiated { trust_decision = pending }

alice_careful :
    (initiator_receive toy alice.now alice_device alice.mine hello careful
      (frame (object answer))).result
    ≡ ok met
unfolding initiator_receive received typed validate_message required_fields missing check_fields get
    unless_replayed check_and_add keep_if lookup identified verify_device_identity from_hex to_hex
    check_trust proven check_signature record_trust initiator_finish concluded agree initiator_start
    make_handshake_init make_handshake_response signed_fields compute_responder_transcript
    compute_initiator_transcript compute_final_transcript_hash codes check record_first_seen
    check_external_trust insert perform_all perform approve
alice_careful = refl

revoked_never_completes_example : met.peer_device_id ≢ "07"
revoked_never_completes_example =
    revoked_never_completes toy (λ cert. true) wary (approval "07" ∷ []) mallory "07" mallory_known
      refl careful refl 5 7 alice_device alice.mine hello "nb" "Bob" (frame (object answer))
      (frame (object finish)) waiting bob.state met (inl alice_careful)

line-injective : (s t : String) (u v : Bytes) → line s u ≡ line t v → (s ≡ t) × (u ≡ v)
line-injective Text.[] Text.[] u v e = (refl, ground arith)
line-injective Text.[] (Text.◌∷◌ d t) u v e = absurd (ground arith)
line-injective (Text.◌∷◌ c s) Text.[] u v e = absurd (ground arith)
line-injective (Text.◌∷◌ c s) (Text.◌∷◌ d t) u v e =
    let numbers : code c ≡ code d = ground arith in
    let tails : line s u ≡ line t v = ground arith in
    let (same, rest) = line-injective s t u v tails in
    (ap₂ Text.◌∷◌ (Char-path c d numbers) same, rest)

toy-distinct : (s t : SignedFields) → toy_json (dict_of s) ≡ toy_json (dict_of t) → s ≡ t
toy-distinct s t e =
    let (kind, e1) = line-injective s.kind t.kind _ _ e in
    let (device_id, e2) = line-injective s.device_id t.device_id _ _ e1 in
    let (public_key, e3) = line-injective s.public_key t.public_key _ _ e2 in
    let (ephemeral_key, e4) = line-injective s.ephemeral_key t.ephemeral_key _ _ e3 in
    let (nonce, e5) = line-injective s.nonce t.nonce _ _ e4 in
    let (sender_name, _) = line-injective s.sender_name t.sender_name _ _ e5 in
    λ i. record {
      kind = kind i;
      device_id = device_id i;
      public_key = public_key i;
      ephemeral_key = ephemeral_key i;
      nonce = nonce i;
      sender_name = sender_name i;
    }

line_without_newline :
    (s : String) (u : Bytes)
    → All (λ (b : ℕ). b ≢ newline) u
    → All (λ (b : ℕ). b ≢ newline) (line s u)
line_without_newline Text.[] u h = ((λ e. omega (arith, e)), h)
line_without_newline (Text.◌∷◌ c s) u h = ((λ e. omega (arith, e)), line_without_newline s u h)

toy_one_line : (s : SignedFields) → All (λ (b : ℕ). b ≢ newline) (toy_json (dict_of s))
toy_one_line s = line_without_newline s.kind _ (
    line_without_newline s.device_id _ (
      line_without_newline s.public_key _ (
        line_without_newline s.ephemeral_key _
          (line_without_newline s.nonce _ (line_without_newline s.sender_name [] tt)))))

abbrev hello_fields : SignedFields
hello_fields = record {
  kind = "handshake_init";
  device_id = "01";
  public_key = "01";
  ephemeral_key = to_hex (replicate 32 3);
  nonce = "na";
  sender_name = "Alice";
}

abbrev answer_fields : SignedFields
answer_fields = record {
  kind = "handshake_response";
  device_id = "02";
  public_key = "02";
  ephemeral_key = to_hex (replicate 32 4);
  nonce = "nb";
  sender_name = "Bob";
}

hello_signed : HasFields hello hello_fields
unfolding get initiator_start make_handshake_init to_hex
hello_signed = (refl, refl, refl, refl, refl, refl)

answer_signed : HasFields answer answer_fields
unfolding get make_handshake_response
answer_signed = (refl, refl, refl, refl, refl, refl)

responder_transcript_binds_example : (hello_fields ≡ hello_fields) × (answer_fields ≡ answer_fields)
responder_transcript_binds_example =
    responder_transcript_binds toy toy-distinct toy_one_line hello hello answer answer hello_fields
      hello_fields answer_fields answer_fields hello_signed hello_signed answer_signed answer_signed
      refl
