-- ===== src/Protocol/Messages/Make/Sessions.antt =====
-- core/protocol/messages.py: the messages of a chat, a file transfer, a greeting and a handshake. The
-- clock and the random message id are arguments.
use peerc.Common.{ℕ, List, [], ◌∷◌, Bool, String, ◌==◌, if◌then◌else◌}
use peerc.Protocol.Values.{ℤ, pos, Value, bool, int, float, text, Fields, fields}
use peerc.Protocol.Schema.{protocol_version}

-- `make_chat_message`
unfoldable pub make_chat_message : ℤ → String → String → String → String → Fields
make_chat_message now message_id sender_id sender_name content = fields (
    ("type", text "chat")
    ∷ ("version", int (pos protocol_version))
    ∷ ("message_id", text message_id)
    ∷ ("sender_id", text sender_id)
    ∷ ("sender_name", text sender_name)
    ∷ ("text", text content)
    ∷ ("timestamp", float now)
    ∷ [])

-- `make_chat_ack`
unfoldable pub make_chat_ack : ℤ → String → Fields
make_chat_ack now message_id = fields (
    ("type", text "chat_ack")
    ∷ ("version", int (pos protocol_version))
    ∷ ("message_id", text message_id)
    ∷ ("timestamp", float now)
    ∷ [])

-- `make_file_offer`
unfoldable pub make_file_offer : ℤ → String → String → String → String → ℕ → String → Fields
make_file_offer now transfer_id sender_id sender_name filename size checksum = fields (
    ("type", text "file_offer")
    ∷ ("version", int (pos protocol_version))
    ∷ ("transfer_id", text transfer_id)
    ∷ ("sender_id", text sender_id)
    ∷ ("sender_name", text sender_name)
    ∷ ("filename", text filename)
    ∷ ("size", int (pos size))
    ∷ ("checksum", text checksum)
    ∷ ("timestamp", float now)
    ∷ [])

-- `make_file_accept`, of a non-negative int.
unfoldable pub make_file_accept : ℤ → String → ℕ → Fields
make_file_accept now transfer_id resume_offset =
    let resumed : List (String × Value) =
      if resume_offset == 0 then [] else ("resume_offset", int (pos resume_offset)) ∷ [] in
    fields (
      ("type", text "file_accept")
      ∷ ("version", int (pos protocol_version))
      ∷ ("transfer_id", text transfer_id)
      ∷ ("timestamp", float now)
      ∷ resumed)

-- `make_file_reject`
unfoldable pub make_file_reject : ℤ → String → Fields
make_file_reject now transfer_id = fields (
    ("type", text "file_reject")
    ∷ ("version", int (pos protocol_version))
    ∷ ("transfer_id", text transfer_id)
    ∷ ("timestamp", float now)
    ∷ [])

-- `make_file_chunk`
unfoldable pub make_file_chunk : String → ℕ → String → Bool → Fields
make_file_chunk transfer_id chunk_index data_b64 is_last = fields (
    ("type", text "file_chunk")
    ∷ ("version", int (pos protocol_version))
    ∷ ("transfer_id", text transfer_id)
    ∷ ("chunk_index", int (pos chunk_index))
    ∷ ("data", text data_b64)
    ∷ ("is_last", bool is_last)
    ∷ [])

-- `make_file_done`
unfoldable pub make_file_done : String → String → Fields
make_file_done transfer_id checksum = fields (
    ("type", text "file_done")
    ∷ ("version", int (pos protocol_version))
    ∷ ("transfer_id", text transfer_id)
    ∷ ("checksum", text checksum)
    ∷ [])

-- `make_file_complete_ack`
unfoldable pub make_file_complete_ack : String → Bool → String → Fields
make_file_complete_ack transfer_id success detail = fields (
    ("type", text "file_complete_ack")
    ∷ ("version", int (pos protocol_version))
    ∷ ("transfer_id", text transfer_id)
    ∷ ("success", bool success)
    ∷ ("detail", text detail)
    ∷ [])

-- `make_hello`
unfoldable pub make_hello : ℤ → String → String → ℕ → Fields
make_hello now peer_id sender_name tcp_port = fields (
    ("type", text "hello")
    ∷ ("version", int (pos protocol_version))
    ∷ ("peer_id", text peer_id)
    ∷ ("sender_name", text sender_name)
    ∷ ("tcp_port", int (pos tcp_port))
    ∷ ("timestamp", float now)
    ∷ [])

-- `make_hello_ack`
unfoldable pub make_hello_ack : ℤ → String → String → ℕ → Fields
make_hello_ack now peer_id sender_name tcp_port = fields (
    ("type", text "hello_ack")
    ∷ ("version", int (pos protocol_version))
    ∷ ("peer_id", text peer_id)
    ∷ ("sender_name", text sender_name)
    ∷ ("tcp_port", int (pos tcp_port))
    ∷ ("timestamp", float now)
    ∷ [])

-- `make_endpoint_update`
unfoldable pub make_endpoint_update : String → String → String → ℕ → ℤ → String → String → Fields
make_endpoint_update device_id kind host port timestamp nonce signature = fields (
    ("type", text "endpoint_update")
    ∷ ("version", int (pos protocol_version))
    ∷ ("device_id", text device_id)
    ∷ ("kind", text kind)
    ∷ ("host", text host)
    ∷ ("port", int (pos port))
    ∷ ("timestamp", float timestamp)
    ∷ ("nonce", text nonce)
    ∷ ("signature", text signature)
    ∷ [])

-- `make_handshake_init`
unfoldable pub make_handshake_init : ℤ → String → String → String → String → String → Fields
make_handshake_init now device_id public_key ephemeral_key nonce sender_name = fields (
    ("type", text "handshake_init")
    ∷ ("version", int (pos protocol_version))
    ∷ ("device_id", text device_id)
    ∷ ("public_key", text public_key)
    ∷ ("ephemeral_key", text ephemeral_key)
    ∷ ("nonce", text nonce)
    ∷ ("sender_name", text sender_name)
    ∷ ("timestamp", float now)
    ∷ [])

-- `make_handshake_response`
unfoldable pub make_handshake_response :
    ℤ → String → String → String → String → String → String → Fields
make_handshake_response now device_id public_key ephemeral_key nonce sender_name signature =
    fields (
      ("type", text "handshake_response")
      ∷ ("version", int (pos protocol_version))
      ∷ ("device_id", text device_id)
      ∷ ("public_key", text public_key)
      ∷ ("ephemeral_key", text ephemeral_key)
      ∷ ("nonce", text nonce)
      ∷ ("sender_name", text sender_name)
      ∷ ("signature", text signature)
      ∷ ("timestamp", float now)
      ∷ [])

-- `make_handshake_finish`
unfoldable pub make_handshake_finish : ℤ → String → Fields
make_handshake_finish now signature = fields (
    ("type", text "handshake_finish")
    ∷ ("version", int (pos protocol_version))
    ∷ ("signature", text signature)
    ∷ ("timestamp", float now)
    ∷ [])
