-- ===== src/Protocol/Messages.antt =====
-- core/protocol/messages.py: `validate_message`, with `parse_error_message` for errors.
pub mod Parts
pub mod Make
pub mod Sent
pub mod Accepted
pub mod Checked
mod Examples
use peerc.Common.{
  ℕ, ◌*◌, List, [], ◌∷◌, Bool, true, false, not, ◌&&◌, ◌||◌, ltb, leb, Option, none, some, String,
  str_eq, if◌then◌else◌, Result, ok, err, ◌>>◌, ◌>>=◌, guard,
}
use peerc.Protocol.Values.{
  ℤ, pos, negsuc, Value, null, bool, int, float, text, array, object, Items, Fields, get, has,
  is_text, is_filled, is_bool, is_true, is_object, int_of, is_number, is_numeric, is_one_of,
  all_texts, utf8_length,
}
use peerc.Protocol.ErrorMessages.{
  ProtocolError, not_an_object, missing_type, version_not_int, version_too_old, missing_fields,
  bad_field, text_or_empty, parse_error_message,
}
use peerc.Protocol.Schema.{
  max_chat_text_size, protocol_version, min_supported_version, required_fields, missing, Check,
  whenever, filled, all_filled, is_count, is_port, is_strict_count, endpoint_kinds, is_chat_text,
  is_texts, is_group_type,
}

check_chat : Fields → Check
check_chat m =
    guard (is_text (get "text" m)) (bad_field "chat" "text")
    >> guard (is_chat_text (get "text" m)) (bad_field "chat" "text")

check_file_offer : Fields → Check
check_file_offer m =
    filled "file_offer" "filename" m
    >> guard (is_count (get "size" m)) (bad_field "file_offer" "size")
    >> filled "file_offer" "checksum" m

check_file_accept : Fields → Check
check_file_accept m =
    guard (is_strict_count (get "resume_offset" m)) (bad_field "file_accept" "resume_offset")

check_file_chunk : Fields → Check
check_file_chunk m =
    guard (is_count (get "chunk_index" m)) (bad_field "file_chunk" "chunk_index")
    >> guard (is_text (get "data" m)) (bad_field "file_chunk" "data")

check_endpoint_update : Fields → Check
check_endpoint_update m =
    guard (is_port (get "port" m)) (bad_field "endpoint_update" "port")
    >> guard (is_one_of endpoint_kinds (get "kind" m)) (bad_field "endpoint_update" "kind")

unfoldable pub check_handshake : String → Fields → Check
check_handshake t m =
    all_filled t ("device_id" ∷ "public_key" ∷ "ephemeral_key" ∷ "nonce" ∷ []) m
    >> guard (is_text (get "sender_name" m)) (bad_field t "sender_name")

filled_if_present : String → String → Fields → Check
filled_if_present t name m = whenever (has name m) (filled t name m)

check_group : String → Fields → Check
unfolding filled_if_present
check_group t m =
    filled_if_present t "group_id" m
    >> filled_if_present t "device_id" m
    >> filled_if_present t "signature" m
    >> guard (not (has "timestamp" m) || is_number (get "timestamp" m)) (bad_field t "timestamp")

check_group_join_request : Fields → Check
check_group_join_request m =
    filled "group_join_request" "device_public_key" m
    >> filled "group_join_request" "requested_role" m
    >> guard (is_texts (get "requested_permissions" m))
        (bad_field "group_join_request" "requested_permissions")

check_group_response : String → Fields → Check
check_group_response t m =
    guard (is_bool (get "approved" m)) (bad_field t "approved")
    >> filled t "admin_device_id" m
    >> guard
        (not (str_eq t "group_join_response" && is_true (get "approved" m))
          || is_object (get "certificate" m))
        (bad_field t "certificate")
    >> guard
        (not (str_eq t "group_leave_response" && is_true (get "approved" m))
          || is_object (get "revocation" m))
        (bad_field t "revocation")

check_group_export_capability : Fields → Check
check_group_export_capability m =
    all_filled "group_export_capability"
      ("capability_id" ∷ "file_id" ∷ "nonce" ∷ "admin_device_id" ∷ []) m
    >> guard (is_numeric (get "issued_at" m)) (bad_field "group_export_capability" "issued_at")
    >> guard (is_numeric (get "expires_at" m)) (bad_field "group_export_capability" "expires_at")

-- `_validate_endpoint_update_dict`
unfoldable pub validate_endpoint_update_dict : String → Fields → Check
validate_endpoint_update_dict parent eu =
    all_filled parent ("device_id" ∷ "kind" ∷ "host" ∷ "nonce" ∷ "signature" ∷ []) eu
    >> guard (is_port (get "port" eu)) (bad_field parent "port")
    >> guard (is_one_of endpoint_kinds (get "kind" eu)) (bad_field parent "kind")
    >> guard (is_numeric (get "timestamp" eu)) (bad_field parent "timestamp")

-- An endpoint update that is an object; `null_allowed` lets `null` pass.
nested_endpoint_update : Bool → String → String → Option Value → Check
nested_endpoint_update null_allowed t parent (some (object eu)) =
    validate_endpoint_update_dict parent eu
nested_endpoint_update true t parent (some null) = ok tt
nested_endpoint_update _ t parent _ = err (bad_field t "endpoint_update")

check_rendezvous_register : Fields → Check
unfolding nested_endpoint_update
check_rendezvous_register m =
    filled "rendezvous_register" "group_id" m
    >> nested_endpoint_update false "rendezvous_register" "rendezvous_register.endpoint_update"
        (get "endpoint_update" m)

check_rendezvous_lookup_response : Fields → Check
unfolding nested_endpoint_update
check_rendezvous_lookup_response m =
    all_filled "rendezvous_lookup_response" ("group_id" ∷ "target_device_id" ∷ []) m
    >> nested_endpoint_update true "rendezvous_lookup_response"
        "rendezvous_lookup_response.endpoint_update" (get "endpoint_update" m)

-- The checks of one type, in the order of the source.
unfoldable pub check_fields : String → Fields → Check
unfolding check_chat check_file_offer check_file_accept check_file_chunk check_endpoint_update
    check_handshake check_group check_group_join_request check_group_response
    check_group_export_capability check_rendezvous_register check_rendezvous_lookup_response
check_fields t m =
    whenever (str_eq t "error") (parse_error_message m >>= λ info. ok tt)
    >> whenever (str_eq t "chat") (check_chat m)
    >> whenever (str_eq t "file_offer") (check_file_offer m)
    >> whenever (str_eq t "file_accept" && has "resume_offset" m) (check_file_accept m)
    >> whenever (str_eq t "file_chunk") (check_file_chunk m)
    >> whenever (str_eq t "hello" || str_eq t "hello_ack")
        (guard (is_port (get "tcp_port" m)) (bad_field t "tcp_port"))
    >> whenever (str_eq t "endpoint_update") (check_endpoint_update m)
    >> whenever (str_eq t "handshake_init" || str_eq t "handshake_response") (check_handshake t m)
    >> whenever (str_eq t "handshake_response" || str_eq t "handshake_finish")
        (filled t "signature" m)
    >> whenever (is_group_type t) (check_group t m)
    >> whenever (str_eq t "group_join_request") (check_group_join_request m)
    >> whenever (str_eq t "group_join_response" || str_eq t "group_leave_response")
        (check_group_response t m)
    >> whenever (str_eq t "group_membership_revoke")
        (all_filled t ("revocation_id" ∷ "revoked_by" ∷ []) m)
    >> whenever (str_eq t "group_export_request")
        (all_filled t ("device_public_key" ∷ "file_id" ∷ []) m)
    >> whenever (str_eq t "group_export_capability") (check_group_export_capability m)
    >> whenever (str_eq t "rendezvous_register") (check_rendezvous_register m)
    >> whenever (str_eq t "rendezvous_lookup")
        (all_filled t ("group_id" ∷ "target_device_id" ∷ []) m)
    >> whenever (str_eq t "rendezvous_lookup_response") (check_rendezvous_lookup_response m)
    >> whenever (str_eq t "relay_request") (all_filled t ("group_id" ∷ "target_device_id" ∷ []) m)
    >> whenever (str_eq t "relay_response") (
        all_filled t ("group_id" ∷ "target_device_id" ∷ []) m
        >> guard (is_bool (get "accepted" m)) (bad_field t "accepted"))
    >> whenever (str_eq t "relay_candidate_query") (filled t "group_id" m)
    >> whenever (str_eq t "relay_candidate_response")
        (filled t "group_id" m >> guard (is_bool (get "available" m)) (bad_field t "available"))

-- The version of the message; without one it is 1.
check_version : Option Value → Check
check_version none = ok tt
check_version (some v) = elim (int_of (some v)) [
  | none ↦ err version_not_int
  | some (negsuc n) ↦ err version_too_old
  | some (pos n) ↦ guard (leb min_supported_version n) version_too_old
]

check_known : String → Fields → Option (List String) → Check
check_known t m none = ok tt
check_known t m (some required) = elim (missing required m) [
  | [] ↦ check_fields t m
  | f ∷ fs ↦ err (missing_fields t (f ∷ fs))
]

-- `validate_message`, whose result is the message itself.
unfoldable pub validate_message : Value → Check
unfolding check_version check_known
validate_message (object m) =
    guard (is_filled (get "type" m)) missing_type
    >> check_version (get "version" m)
    >> check_known (text_or_empty (get "type" m)) m (required_fields (text_or_empty (get "type" m)))
validate_message _ = err not_an_object
