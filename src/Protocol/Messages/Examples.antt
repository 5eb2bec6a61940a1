-- ===== src/Protocol/Messages/Examples.antt =====
-- Messages that pass the check and some that do not, and the context of an error.
use peerc.Common.{◌≡◌, refl, ◌↔◌, [], ◌∷◌, true, false, some, ok, err, arith}
use peerc.Protocol.Values.{pos, null, bool, int, text, object, Fields, fields, get, is_filled}
use peerc.Protocol.ErrorMessages.{
  missing_fields, version_too_old, matches_id, id_length, id_rest, is_id_char, filter_fields,
}
use peerc.Protocol.Schema.{required_fields, missing}
use peerc.Protocol.Messages.{check_fields, validate_message}
use peerc.Protocol.Messages.Make.{make_handshake_response}
use peerc.Protocol.Messages.Sent.{hello, message_of}
use peerc.Protocol.Messages.Accepted.{sent-accepted}
use peerc.Protocol.Messages.Checked.{Supported, HandshakeFields, handshake_response-iff-checked}

abbrev response : Fields
response = make_handshake_response (pos 5) "d1" "k1" "e1" "n1" "Ann" "s1"

response_typed : get "type" response ≡ some (text "handshake_response")
unfolding get make_handshake_response
response_typed = refl

-- Tests.
unsigned_refused :
    validate_message
      (object (fields (("type", text "handshake_finish") ∷ ("version", int (pos 2)) ∷ [])))
    ≡ err (missing_fields "handshake_finish" ("signature" ∷ []))
unfolding validate_message required_fields missing get
unsigned_refused = refl

old_refused :
    validate_message (object (fields (("type", text "chat_ack") ∷ ("version", bool false) ∷ [])))
    ≡ err version_too_old
unfolding validate_message get
old_refused = refl

-- True is an int for Python, and port 1.
true_port :
    validate_message (
      object (
        fields (
          ("type", text "hello")
          ∷ ("peer_id", null)
          ∷ ("sender_name", null)
          ∷ ("tcp_port", bool true)
          ∷ [])))
    ≡ ok tt
unfolding validate_message required_fields missing check_fields get
true_port = refl

newline_id : matches_id "t-1\n" ≡ true
unfolding matches_id id_length id_rest is_id_char
newline_id = refl

-- Witnesses.
sent-accepted_example :
    validate_message (object (message_of (hello (pos 5) "p1" "Ann" 4000))) ≡ ok tt
sent-accepted_example = sent-accepted (hello (pos 5) "p1" "Ann" 4000) (omega arith)

handshake_response-iff-checked_example : (validate_message (object response) ≡ ok tt) ↔ (
    Supported (get "version" response)
    × HandshakeFields response
    × (is_filled (get "signature" response) ≡ true))
handshake_response-iff-checked_example = handshake_response-iff-checked response response_typed

abbrev context : Fields
context = fields (
    ("transfer_id", text "t-1")
    ∷ ("message_id", text "../x")
    ∷ ("path", text "/home")
    ∷ ("retry_after", bool true)
    ∷ [])

only_the_id : filter_fields context ≡ fields (("transfer_id", text "t-1") ∷ [])
unfolding filter_fields get matches_id id_length id_rest is_id_char
only_the_id = refl
