-- ===== src/Crypto/Handshake/Trusting.antt =====
-- The two halves of the trust check: looking a peer up, and writing it down once it has proved itself.
use peerc.Common.{
  ℕ, List, [], ◌∷◌, Option, none, some, String, str_eq, if◌then◌else◌, Result, ok, err,
}
use peerc.Protocol.Bytes.{Bytes}
use peerc.Protocol.Hex.{from_hex}
use peerc.Protocol.ErrorMessages.{cut}
use peerc.Trust.Store.{
  TrustStore, TrustDecision, unknown, pending, trusted, key_changed, revoked, check,
  record_first_seen, touch_last_seen,
}
use peerc.Crypto.Handshake.{
  Primitives, HandshakeError, identity_verification, device_revoked, not_recorded, SecurityEvent,
  auth_failed,
}
use peerc.Crypto.Handshake as Handshake

abbrev pub max_peer_name_length : ℕ
max_peer_name_length = 64

module _ (p : Primitives) where
  open p use {compute_device_id}

  -- `_verify_device_identity`, with the events that it emits.
  unfoldable pub verify_device_identity :
      String → String → List SecurityEvent × Result HandshakeError Bytes
  verify_device_identity device_id public_key_hex = elim (from_hex public_key_hex) [
    | none ↦ ([], err identity_verification)
    | some pub_bytes ↦
        if str_eq (compute_device_id pub_bytes) device_id
        then ([], ok pub_bytes)
        else (auth_failed device_id ∷ [], err identity_verification)
  ]

unfoldable pub judged : TrustDecision → Result HandshakeError TrustDecision
judged revoked = err device_revoked
judged key_changed = err Handshake.key_changed
judged decision = ok decision

-- `_check_trust`: it reads the store only.
unfoldable pub check_trust :
    Option TrustStore → String → String → Result HandshakeError TrustDecision
unfolding judged
check_trust none device_id public_key_hex = ok unknown
check_trust (some store) device_id public_key_hex = judged (check store device_id public_key_hex).1

recorded :
    ℕ
    → TrustStore
    → String
    → String
    → String
    → TrustDecision
    → Option TrustStore × Result HandshakeError TrustDecision
recorded now store device_id public_key_hex peer_name unknown =
    let (after, outcome) =
      record_first_seen now store device_id public_key_hex (cut max_peer_name_length peer_name) in
    (some after, elim outcome [ ok _ ↦ ok pending | err e ↦ err (not_recorded e) ])
recorded now store device_id public_key_hex peer_name pending =
    (some (touch_last_seen now store device_id), ok pending)
recorded now store device_id public_key_hex peer_name trusted =
    (some (touch_last_seen now store device_id), ok trusted)
recorded now store device_id public_key_hex peer_name decision = (some store, ok decision)

-- `_record_trust`
unfoldable pub record_trust :
    ℕ
    → Option TrustStore
    → String
    → String
    → String
    → TrustDecision
    → Option TrustStore × Result HandshakeError TrustDecision
unfolding recorded
record_trust now none device_id public_key_hex peer_name decision = (none, ok decision)
record_trust now (some store) device_id public_key_hex peer_name decision =
    recorded now store device_id public_key_hex peer_name decision

-- `_check_and_update_trust`
unfoldable pub check_and_update_trust :
    ℕ
    → Option TrustStore
    → String
    → String
    → String
    → Option TrustStore × Result HandshakeError TrustDecision
check_and_update_trust now store device_id public_key_hex peer_name =
    elim (check_trust store device_id public_key_hex) [
      | err e ↦ (store, err e)
      | ok decision ↦ record_trust now store device_id public_key_hex peer_name decision
    ]
