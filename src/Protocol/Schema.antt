-- ===== src/Protocol/Schema.antt =====
-- core/protocol/messages.py: the fields that each type requires, and the tests that recur in the
-- schema validation.
use peerc.Common.{
  ℕ, ◌*◌, List, [], ◌∷◌, Bool, true, false, ◌&&◌, ltb, leb, Option, none, some, String, str_eq,
  if◌then◌else◌, Result, ok, ◌>>◌, guard,
}
use peerc.Protocol.Values.{
  pos, Value, int, text, array, Fields, get, has, is_filled, int_of, is_one_of, all_texts,
  utf8_length,
}
use peerc.Protocol.ErrorMessages.{ProtocolError, bad_field}

abbrev pub max_chat_text_size : ℕ
max_chat_text_size = 64 * 1024

abbrev pub protocol_version : ℕ
protocol_version = 2

abbrev pub min_supported_version : ℕ
min_supported_version = 1

-- `REQUIRED_FIELDS.get(msg_type)`
unfoldable pub required_fields : String → Option (List String)
required_fields t =
    if str_eq t "chat"
    then some ("message_id" ∷ "sender_id" ∷ "sender_name" ∷ "text" ∷ [])
    else if str_eq t "chat_ack"
    then some ("message_id" ∷ [])
    else if str_eq t "file_offer"
    then some ("transfer_id" ∷ "filename" ∷ "size" ∷ "checksum" ∷ [])
    else if str_eq t "file_accept"
    then some ("transfer_id" ∷ [])
    else if str_eq t "file_reject"
    then some ("transfer_id" ∷ [])
    else if str_eq t "file_chunk"
    then some ("transfer_id" ∷ "chunk_index" ∷ "data" ∷ "is_last" ∷ [])
    else if str_eq t "file_done"
    then some ("transfer_id" ∷ "checksum" ∷ [])
    else if str_eq t "file_complete_ack"
    then some ("transfer_id" ∷ "success" ∷ [])
    else if str_eq t "hello"
    then some ("peer_id" ∷ "sender_name" ∷ "tcp_port" ∷ [])
    else if str_eq t "hello_ack"
    then some ("peer_id" ∷ "sender_name" ∷ "tcp_port" ∷ [])
    else if str_eq t "handshake_init"
    then some ("device_id" ∷ "public_key" ∷ "ephemeral_key" ∷ "nonce" ∷ "sender_name" ∷ [])
    else if str_eq t "handshake_response"
    then some
        ("device_id" ∷ "public_key" ∷ "ephemeral_key" ∷ "nonce" ∷ "sender_name" ∷ "signature" ∷ [])
    else if str_eq t "handshake_finish"
    then some ("signature" ∷ [])
    else if str_eq t "group_join_request"
    then some (
        "request_id" ∷ "group_id" ∷ "device_id" ∷ "device_public_key" ∷ "requested_role"
        ∷ "requested_permissions" ∷ "timestamp" ∷ "signature" ∷ [])
    else if str_eq t "group_join_response"
    then some (
        "request_id" ∷ "group_id" ∷ "device_id" ∷ "approved" ∷ "admin_device_id" ∷ "timestamp"
        ∷ "signature" ∷ [])
    else if str_eq t "group_leave_request"
    then some ("request_id" ∷ "group_id" ∷ "device_id" ∷ "timestamp" ∷ "signature" ∷ [])
    else if str_eq t "group_leave_response"
    then some (
        "request_id" ∷ "group_id" ∷ "device_id" ∷ "approved" ∷ "admin_device_id" ∷ "timestamp"
        ∷ "signature" ∷ [])
    else if str_eq t "group_membership_revoke"
    then some
        ("revocation_id" ∷ "group_id" ∷ "device_id" ∷ "revoked_by" ∷ "timestamp" ∷ "signature" ∷ [])
    else if str_eq t "group_export_request"
    then some (
        "request_id" ∷ "group_id" ∷ "device_id" ∷ "device_public_key" ∷ "file_id" ∷ "timestamp"
        ∷ "signature" ∷ [])
    else if str_eq t "group_export_capability"
    then some (
        "capability_id" ∷ "request_id" ∷ "group_id" ∷ "device_id" ∷ "file_id" ∷ "issued_at"
        ∷ "expires_at" ∷ "nonce" ∷ "admin_device_id" ∷ "signature" ∷ [])
    else if str_eq t "endpoint_update"
    then some ("device_id" ∷ "kind" ∷ "host" ∷ "port" ∷ "timestamp" ∷ "nonce" ∷ "signature" ∷ [])
    else if str_eq t "rendezvous_register"
    then some ("group_id" ∷ "endpoint_update" ∷ "timestamp" ∷ [])
    else if str_eq t "rendezvous_lookup"
    then some ("group_id" ∷ "target_device_id" ∷ "timestamp" ∷ [])
    else if str_eq t "rendezvous_lookup_response"
    then some ("group_id" ∷ "target_device_id" ∷ "endpoint_update" ∷ "timestamp" ∷ [])
    else if str_eq t "relay_request"
    then some ("group_id" ∷ "target_device_id" ∷ "timestamp" ∷ [])
    else if str_eq t "relay_response"
    then some ("group_id" ∷ "target_device_id" ∷ "accepted" ∷ "timestamp" ∷ [])
    else if str_eq t "relay_candidate_query"
    then some ("group_id" ∷ "timestamp" ∷ [])
    else if str_eq t "relay_candidate_response"
    then some ("group_id" ∷ "available" ∷ "timestamp" ∷ [])
    else if str_eq t "error"
    then some ("code" ∷ "message" ∷ [])
    else none

-- [f for f in required if f not in message]
unfoldable pub missing : List String → Fields → List String
missing [] m = []
missing (f ∷ fs) m = let rest = missing fs m in if has f m then rest else f ∷ rest

abbrev pub Check : Type 0
Check = Result ProtocolError (Unit {0})

-- if condition: check
abbrev pub whenever : Bool → Check → Check
whenever b check = if b then check else ok tt

-- The three tests that recur, for one field.
abbrev pub filled : String → String → Fields → Check
filled t name m = guard (is_filled (get name m)) (bad_field t name)

abbrev pub all_filled : String → List String → Fields → Check
all_filled t [] m = ok tt
all_filled t (name ∷ names) m = filled t name m >> all_filled t names m

-- A non-negative int, True and False included.
abbrev pub is_count : Option Value → Bool
is_count v = elim (int_of v) [ some (pos n) ↦ true | _ ↦ false ]

-- An int between 0 and 65536, True included.
abbrev pub is_port : Option Value → Bool
is_port v = elim (int_of v) [ some (pos n) ↦ ltb 0 n && ltb n 65536 | _ ↦ false ]

-- A non-negative int that is no bool.
abbrev pub is_strict_count : Option Value → Bool
is_strict_count (some (int (pos n))) = true
is_strict_count _ = false

abbrev pub endpoint_kinds : List String
endpoint_kinds = "direct-v4" ∷ "direct-v6" ∷ "rendezvous" ∷ []

abbrev pub is_chat_text : Option Value → Bool
is_chat_text (some (text s)) = leb (utf8_length s) max_chat_text_size
is_chat_text _ = false

abbrev pub is_texts : Option Value → Bool
is_texts (some (array items)) = all_texts items
is_texts _ = false

-- `msg_type.startswith("group_")`, for the types that REQUIRED_FIELDS has.
abbrev pub is_group_type : String → Bool
is_group_type = λ t.
    is_one_of
      ("group_join_request" ∷ "group_join_response" ∷ "group_leave_request" ∷ "group_leave_response"
        ∷ "group_membership_revoke" ∷ "group_export_request" ∷ "group_export_capability" ∷ [])
      (some (text t))
