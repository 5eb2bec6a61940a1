-- ===== src/Protocol/Messages/Make/Groups.antt =====
-- core/protocol/messages.py: the messages about the membership of a group. The clock is an argument.
use peerc.Common.{List, [], ◌∷◌, Bool, Option, String}
use peerc.Protocol.Values.{ℤ, pos, Value, bool, int, float, text, array, Fields, fields}
use peerc.Protocol.Schema.{protocol_version}
use peerc.Protocol.Messages.Parts.{stamp, or_null, text_or_null, texts}

-- `make_group_join_request`
unfoldable pub make_group_join_request :
    ℤ
    → String
    → String
    → String
    → String
    → String
    → List String
    → String
    → Option String
    → Option ℤ
    → Fields
make_group_join_request now request_id group_id device_id device_public_key requested_role
      requested_permissions signature reason timestamp =
    fields (
      ("type", text "group_join_request")
      ∷ ("version", int (pos protocol_version))
      ∷ ("request_id", text request_id)
      ∷ ("group_id", text group_id)
      ∷ ("device_id", text device_id)
      ∷ ("device_public_key", text device_public_key)
      ∷ ("requested_role", text requested_role)
      ∷ ("requested_permissions", array (texts requested_permissions))
      ∷ ("reason", text_or_null reason)
      ∷ ("timestamp", float (stamp now timestamp))
      ∷ ("signature", text signature)
      ∷ [])

-- `make_group_join_response`
unfoldable pub make_group_join_response :
    ℤ
    → String
    → String
    → String
    → Bool
    → String
    → String
    → Option Value
    → Option String
    → Option ℤ
    → Fields
make_group_join_response now request_id group_id device_id approved admin_device_id signature
      certificate reason timestamp =
    fields (
      ("type", text "group_join_response")
      ∷ ("version", int (pos protocol_version))
      ∷ ("request_id", text request_id)
      ∷ ("group_id", text group_id)
      ∷ ("device_id", text device_id)
      ∷ ("approved", bool approved)
      ∷ ("admin_device_id", text admin_device_id)
      ∷ ("certificate", or_null certificate)
      ∷ ("reason", text_or_null reason)
      ∷ ("timestamp", float (stamp now timestamp))
      ∷ ("signature", text signature)
      ∷ [])

-- `make_group_leave_request`
unfoldable pub make_group_leave_request :
    ℤ → String → String → String → String → Option String → Option ℤ → Fields
make_group_leave_request now request_id group_id device_id signature reason timestamp = fields (
    ("type", text "group_leave_request")
    ∷ ("version", int (pos protocol_version))
    ∷ ("request_id", text request_id)
    ∷ ("group_id", text group_id)
    ∷ ("device_id", text device_id)
    ∷ ("reason", text_or_null reason)
    ∷ ("timestamp", float (stamp now timestamp))
    ∷ ("signature", text signature)
    ∷ [])

-- `make_group_leave_response`
unfoldable pub make_group_leave_response :
    ℤ
    → String
    → String
    → String
    → Bool
    → String
    → String
    → Option Value
    → Option String
    → Option ℤ
    → Fields
make_group_leave_response now request_id group_id device_id approved admin_device_id signature
      revocation reason timestamp =
    fields (
      ("type", text "group_leave_response")
      ∷ ("version", int (pos protocol_version))
      ∷ ("request_id", text request_id)
      ∷ ("group_id", text group_id)
      ∷ ("device_id", text device_id)
      ∷ ("approved", bool approved)
      ∷ ("admin_device_id", text admin_device_id)
      ∷ ("revocation", or_null revocation)
      ∷ ("reason", text_or_null reason)
      ∷ ("timestamp", float (stamp now timestamp))
      ∷ ("signature", text signature)
      ∷ [])

-- `make_group_membership_revoke`
unfoldable pub make_group_membership_revoke :
    ℤ → String → String → String → String → String → Option String → Option ℤ → Fields
make_group_membership_revoke now revocation_id group_id device_id revoked_by signature reason
      timestamp =
    fields (
      ("type", text "group_membership_revoke")
      ∷ ("version", int (pos protocol_version))
      ∷ ("revocation_id", text revocation_id)
      ∷ ("group_id", text group_id)
      ∷ ("device_id", text device_id)
      ∷ ("revoked_by", text revoked_by)
      ∷ ("reason", text_or_null reason)
      ∷ ("timestamp", float (stamp now timestamp))
      ∷ ("signature", text signature)
      ∷ [])

-- `make_group_export_request`
unfoldable pub make_group_export_request :
    ℤ
    → String
    → String
    → String
    → String
    → String
    → String
    → String
    → Option String
    → Option ℤ
    → Fields
make_group_export_request now request_id group_id device_id device_public_key file_id signature
      action reason timestamp =
    fields (
      ("type", text "group_export_request")
      ∷ ("version", int (pos protocol_version))
      ∷ ("request_id", text request_id)
      ∷ ("group_id", text group_id)
      ∷ ("device_id", text device_id)
      ∷ ("device_public_key", text device_public_key)
      ∷ ("file_id", text file_id)
      ∷ ("action", text action)
      ∷ ("reason", text_or_null reason)
      ∷ ("timestamp", float (stamp now timestamp))
      ∷ ("signature", text signature)
      ∷ [])

-- `make_group_export_capability`
unfoldable pub make_group_export_capability :
    String → String → String → String → String → ℤ → ℤ → String → String → String → String → Fields
make_group_export_capability capability_id request_id group_id device_id file_id issued_at
      expires_at nonce admin_device_id signature action =
    fields (
      ("type", text "group_export_capability")
      ∷ ("version", int (pos protocol_version))
      ∷ ("capability_id", text capability_id)
      ∷ ("request_id", text request_id)
      ∷ ("group_id", text group_id)
      ∷ ("device_id", text device_id)
      ∷ ("file_id", text file_id)
      ∷ ("action", text action)
      ∷ ("issued_at", float issued_at)
      ∷ ("expires_at", float expires_at)
      ∷ ("nonce", text nonce)
      ∷ ("admin_device_id", text admin_device_id)
      ∷ ("signature", text signature)
      ∷ [])
