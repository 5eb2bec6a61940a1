-- ===== src/Protocol/Messages/Sent.antt =====
-- core/protocol/messages.py: what this device may send, by the function that makes it; all of them
-- but `make_error`.
use peerc.Common.{◌≢◌, ◌≡◌, ◌≤◌, ◌<◌, ℕ, List, Bool, true, Option, none, some, String}
use peerc.Protocol.Values.{
  ℤ, pos, Value, int, float, text, object, Fields, get, is_object, is_one_of, utf8_length,
}
use peerc.Protocol.Schema.{endpoint_kinds, max_chat_text_size}
use peerc.Protocol.Messages.Parts.{or_null}
use peerc.Protocol.Messages.Make.{
  make_chat_message, make_chat_ack, make_file_offer, make_file_accept, make_file_reject,
  make_file_chunk, make_file_done, make_file_complete_ack, make_hello, make_hello_ack,
  make_endpoint_update, make_handshake_init, make_handshake_response, make_handshake_finish,
  make_group_join_request, make_group_join_response, make_group_leave_request,
  make_group_leave_response, make_group_membership_revoke, make_group_export_request,
  make_group_export_capability, make_rendezvous_lookup, make_relay_request,
  make_relay_candidate_query, make_relay_candidate_response, make_relay_response,
  make_rendezvous_register, make_rendezvous_lookup_response,
}

-- The arguments of one call, the clock first.
pub data Sent : Type 0 where
  chat : ℤ → String → String → String → String → Sent
  chat_ack : ℤ → String → Sent
  file_offer : ℤ → String → String → String → String → ℕ → String → Sent
  file_accept : ℤ → String → ℕ → Sent
  file_reject : ℤ → String → Sent
  file_chunk : String → ℕ → String → Bool → Sent
  file_done : String → String → Sent
  file_complete_ack : String → Bool → String → Sent
  hello : ℤ → String → String → ℕ → Sent
  hello_ack : ℤ → String → String → ℕ → Sent
  endpoint_update : String → String → String → ℕ → ℤ → String → String → Sent
  handshake_init : ℤ → String → String → String → String → String → Sent
  handshake_response : ℤ → String → String → String → String → String → String → Sent
  handshake_finish : ℤ → String → Sent
  group_join_request :
      ℤ
      → String
      → String
      → String
      → String
      → String
      → List String
      → String
      → Option String
      → Option ℤ
      → Sent
  group_join_response :
      ℤ
      → String
      → String
      → String
      → Bool
      → String
      → String
      → Option Value
      → Option String
      → Option ℤ
      → Sent
  group_leave_request : ℤ → String → String → String → String → Option String → Option ℤ → Sent
  group_leave_response :
      ℤ
      → String
      → String
      → String
      → Bool
      → String
      → String
      → Option Value
      → Option String
      → Option ℤ
      → Sent
  group_membership_revoke :
      ℤ → String → String → String → String → String → Option String → Option ℤ → Sent
  group_export_request :
      ℤ
      → String
      → String
      → String
      → String
      → String
      → String
      → String
      → Option String
      → Option ℤ
      → Sent
  group_export_capability :
      String → String → String → String → String → ℤ → ℤ → String → String → String → String → Sent
  rendezvous_lookup : ℤ → String → String → Sent
  relay_request : ℤ → String → String → Sent
  relay_candidate_query : ℤ → String → Sent
  relay_candidate_response : ℤ → String → Bool → Sent
  relay_response : ℤ → String → String → Bool → Sent
  rendezvous_register : ℤ → String → Fields → Sent
  rendezvous_lookup_response : ℤ → String → String → Option Fields → Sent

unfoldable pub message_of : Sent → Fields
message_of (chat now message_id sender_id sender_name content) =
    make_chat_message now message_id sender_id sender_name content
message_of (chat_ack now message_id) = make_chat_ack now message_id
message_of (file_offer now transfer_id sender_id sender_name filename size checksum) =
    make_file_offer now transfer_id sender_id sender_name filename size checksum
message_of (file_accept now transfer_id resume_offset) =
    make_file_accept now transfer_id resume_offset
message_of (file_reject now transfer_id) = make_file_reject now transfer_id
message_of (file_chunk transfer_id chunk_index data_b64 is_last) =
    make_file_chunk transfer_id chunk_index data_b64 is_last
message_of (file_done transfer_id checksum) = make_file_done transfer_id checksum
message_of (file_complete_ack transfer_id success detail) =
    make_file_complete_ack transfer_id success detail
message_of (hello now peer_id sender_name tcp_port) = make_hello now peer_id sender_name tcp_port
message_of (hello_ack now peer_id sender_name tcp_port) =
    make_hello_ack now peer_id sender_name tcp_port
message_of (endpoint_update device_id kind host port timestamp nonce signature) =
    make_endpoint_update device_id kind host port timestamp nonce signature
message_of (handshake_init now device_id public_key ephemeral_key nonce sender_name) =
    make_handshake_init now device_id public_key ephemeral_key nonce sender_name
message_of (handshake_response now device_id public_key ephemeral_key nonce sender_name signature) =
    make_handshake_response now device_id public_key ephemeral_key nonce sender_name signature
message_of (handshake_finish now signature) = make_handshake_finish now signature
message_of
      (group_join_request now request_id group_id device_id device_public_key requested_role
        requested_permissions signature reason timestamp) =
    make_group_join_request now request_id group_id device_id device_public_key requested_role
      requested_permissions signature reason timestamp
message_of
      (group_join_response now request_id group_id device_id approved admin_device_id signature
        certificate reason timestamp) =
    make_group_join_response now request_id group_id device_id approved admin_device_id signature
      certificate reason timestamp
message_of (group_leave_request now request_id group_id device_id signature reason timestamp) =
    make_group_leave_request now request_id group_id device_id signature reason timestamp
message_of
      (group_leave_response now request_id group_id device_id approved admin_device_id signature
        revocation reason timestamp) =
    make_group_leave_response now request_id group_id device_id approved admin_device_id signature
      revocation reason timestamp
message_of
      (group_membership_revoke now revocation_id group_id device_id revoked_by signature reason
        timestamp) =
    make_group_membership_revoke now revocation_id group_id device_id revoked_by signature reason
      timestamp
message_of
      (group_export_request now request_id group_id device_id device_public_key file_id signature
        action reason timestamp) =
    make_group_export_request now request_id group_id device_id device_public_key file_id signature
      action reason timestamp
message_of
      (group_export_capability capability_id request_id group_id device_id file_id issued_at
        expires_at nonce admin_device_id signature action) =
    make_group_export_capability capability_id request_id group_id device_id file_id issued_at
      expires_at nonce admin_device_id signature action
message_of (rendezvous_lookup now group_id target_device_id) =
    make_rendezvous_lookup now group_id target_device_id
message_of (relay_request now group_id target_device_id) =
    make_relay_request now group_id target_device_id
message_of (relay_candidate_query now group_id) = make_relay_candidate_query now group_id
message_of (relay_candidate_response now group_id available) =
    make_relay_candidate_response now group_id available
message_of (relay_response now group_id target_device_id accepted) =
    make_relay_response now group_id target_device_id accepted
message_of (rendezvous_register now group_id update) = make_rendezvous_register now group_id update
message_of (rendezvous_lookup_response now group_id target_device_id none) =
    make_rendezvous_lookup_response now group_id target_device_id none
message_of (rendezvous_lookup_response now group_id target_device_id (some update)) =
    make_rendezvous_lookup_response now group_id target_device_id (some (object update))

abbrev pub Filled : String → Type 0
Filled s = s ≢ ""

-- The fields of an `EndpointUpdate`, which a rendezvous message carries.
abbrev pub IsUpdate : Fields → Type 0
IsUpdate eu =
    (device_id kind host nonce signature : String) × (port : ℕ) × (timestamp : ℤ) × ((get
          "device_id" eu
        ≡ some (text device_id))
      × Filled device_id)
    × ((get "kind" eu ≡ some (text kind))
        × Filled kind
        × (is_one_of endpoint_kinds (some (text kind)) ≡ true))
    × ((get "host" eu ≡ some (text host)) × Filled host)
    × ((get "nonce" eu ≡ some (text nonce)) × Filled nonce)
    × ((get "signature" eu ≡ some (text signature)) × Filled signature)
    × ((get "port" eu ≡ some (int (pos port))) × (0 < port) × (port < 65536))
    × (get "timestamp" eu ≡ some (float timestamp))

-- What the callers see to: ids, names and signatures that are not empty, ports and kinds that exist.
abbrev pub IsSendable : Sent → Type 0
IsSendable (chat now message_id sender_id sender_name content) =
    (utf8_length content ≤ max_chat_text_size)
IsSendable (chat_ack now message_id) = Unit
IsSendable (file_offer now transfer_id sender_id sender_name filename size checksum) =
    Filled filename × Filled checksum
IsSendable (file_accept now transfer_id resume_offset) = Unit
IsSendable (file_reject now transfer_id) = Unit
IsSendable (file_chunk transfer_id chunk_index data_b64 is_last) = Unit
IsSendable (file_done transfer_id checksum) = Unit
IsSendable (file_complete_ack transfer_id success detail) = Unit
IsSendable (hello now peer_id sender_name tcp_port) = (0 < tcp_port) × (tcp_port < 65536)
IsSendable (hello_ack now peer_id sender_name tcp_port) = (0 < tcp_port) × (tcp_port < 65536)
IsSendable (endpoint_update device_id kind host port timestamp nonce signature) =
    (0 < port) × (port < 65536) × (is_one_of endpoint_kinds (some (text kind)) ≡ true)
IsSendable (handshake_init now device_id public_key ephemeral_key nonce sender_name) =
    Filled device_id × Filled public_key × Filled ephemeral_key × Filled nonce
IsSendable (handshake_response now device_id public_key ephemeral_key nonce sender_name signature) =
    Filled device_id × Filled public_key × Filled ephemeral_key × Filled nonce × Filled signature
IsSendable (handshake_finish now signature) = Filled signature
IsSendable
      (group_join_request now request_id group_id device_id device_public_key requested_role
        requested_permissions signature reason timestamp) =
    Filled group_id
    × Filled device_id
    × Filled signature
    × Filled device_public_key
    × Filled requested_role
IsSendable
      (group_join_response now request_id group_id device_id approved admin_device_id signature
        certificate reason timestamp) =
    Filled group_id
    × Filled device_id
    × Filled signature
    × Filled admin_device_id
    × (approved ≡ true → is_object (some (or_null certificate)) ≡ true)
IsSendable (group_leave_request now request_id group_id device_id signature reason timestamp) =
    Filled group_id × Filled device_id × Filled signature
IsSendable
      (group_leave_response now request_id group_id device_id approved admin_device_id signature
        revocation reason timestamp) =
    Filled group_id
    × Filled device_id
    × Filled signature
    × Filled admin_device_id
    × (approved ≡ true → is_object (some (or_null revocation)) ≡ true)
IsSendable
      (group_membership_revoke now revocation_id group_id device_id revoked_by signature reason
        timestamp) =
    Filled group_id × Filled device_id × Filled signature × Filled revocation_id × Filled revoked_by
IsSendable
      (group_export_request now request_id group_id device_id device_public_key file_id signature
        action reason timestamp) =
    Filled group_id
    × Filled device_id
    × Filled signature
    × Filled device_public_key
    × Filled file_id
IsSendable
      (group_export_capability capability_id request_id group_id device_id file_id issued_at
        expires_at nonce admin_device_id signature action) =
    Filled group_id
    × Filled device_id
    × Filled signature
    × Filled capability_id
    × Filled file_id
    × Filled nonce
    × Filled admin_device_id
IsSendable (rendezvous_lookup now group_id target_device_id) =
    Filled group_id × Filled target_device_id
IsSendable (relay_request now group_id target_device_id) = Filled group_id × Filled target_device_id
IsSendable (relay_candidate_query now group_id) = Filled group_id
IsSendable (relay_candidate_response now group_id available) = Filled group_id
IsSendable (relay_response now group_id target_device_id accepted) =
    Filled group_id × Filled target_device_id
IsSendable (rendezvous_register now group_id update) = Filled group_id × IsUpdate update
IsSendable (rendezvous_lookup_response now group_id target_device_id none) =
    Filled group_id × Filled target_device_id
IsSendable (rendezvous_lookup_response now group_id target_device_id (some update)) =
    Filled group_id × Filled target_device_id × IsUpdate update
