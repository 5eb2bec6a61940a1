-- ===== src/Protocol/Messages/Make/Relays.antt =====
-- core/protocol/messages.py: the messages to a rendezvous and to a relay. The clock is an argument.
use peerc.Common.{[], ◌∷◌, Bool, Option, String}
use peerc.Protocol.Values.{ℤ, pos, Value, bool, int, float, text, object, Fields, fields}
use peerc.Protocol.Schema.{protocol_version}
use peerc.Protocol.Messages.Parts.{or_null}

-- `make_rendezvous_register`
unfoldable pub make_rendezvous_register : ℤ → String → Fields → Fields
make_rendezvous_register now group_id endpoint_update = fields (
    ("type", text "rendezvous_register")
    ∷ ("version", int (pos protocol_version))
    ∷ ("group_id", text group_id)
    ∷ ("endpoint_update", object endpoint_update)
    ∷ ("timestamp", float now)
    ∷ [])

-- `make_rendezvous_lookup`
unfoldable pub make_rendezvous_lookup : ℤ → String → String → Fields
make_rendezvous_lookup now group_id target_device_id = fields (
    ("type", text "rendezvous_lookup")
    ∷ ("version", int (pos protocol_version))
    ∷ ("group_id", text group_id)
    ∷ ("target_device_id", text target_device_id)
    ∷ ("timestamp", float now)
    ∷ [])

-- `make_rendezvous_lookup_response`
unfoldable pub make_rendezvous_lookup_response : ℤ → String → String → Option Value → Fields
make_rendezvous_lookup_response now group_id target_device_id endpoint_update = fields (
    ("type", text "rendezvous_lookup_response")
    ∷ ("version", int (pos protocol_version))
    ∷ ("group_id", text group_id)
    ∷ ("target_device_id", text target_device_id)
    ∷ ("endpoint_update", or_null endpoint_update)
    ∷ ("timestamp", float now)
    ∷ [])

-- `make_relay_request`
unfoldable pub make_relay_request : ℤ → String → String → Fields
make_relay_request now group_id target_device_id = fields (
    ("type", text "relay_request")
    ∷ ("version", int (pos protocol_version))
    ∷ ("group_id", text group_id)
    ∷ ("target_device_id", text target_device_id)
    ∷ ("timestamp", float now)
    ∷ [])

-- `make_relay_candidate_query`
unfoldable pub make_relay_candidate_query : ℤ → String → Fields
make_relay_candidate_query now group_id = fields (
    ("type", text "relay_candidate_query")
    ∷ ("version", int (pos protocol_version))
    ∷ ("group_id", text group_id)
    ∷ ("timestamp", float now)
    ∷ [])

-- `make_relay_candidate_response`
unfoldable pub make_relay_candidate_response : ℤ → String → Bool → Fields
make_relay_candidate_response now group_id available = fields (
    ("type", text "relay_candidate_response")
    ∷ ("version", int (pos protocol_version))
    ∷ ("group_id", text group_id)
    ∷ ("available", bool available)
    ∷ ("timestamp", float now)
    ∷ [])

-- `make_relay_response`
unfoldable pub make_relay_response : ℤ → String → String → Bool → Fields
make_relay_response now group_id target_device_id accepted = fields (
    ("type", text "relay_response")
    ∷ ("version", int (pos protocol_version))
    ∷ ("group_id", text group_id)
    ∷ ("target_device_id", text target_device_id)
    ∷ ("accepted", bool accepted)
    ∷ ("timestamp", float now)
    ∷ [])
