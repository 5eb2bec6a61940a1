-- ===== src/Crypto/Handshake.antt =====
-- core/crypto/handshake.py: the two sides of the authenticated handshake. Ed25519, X25519, SHA-256
-- and `json.dumps` are parameters; what the network gives is an argument of each step.
pub mod Transcript
pub mod Trusting
pub mod Sides
pub mod Proven
pub mod Writes
pub mod Responding
pub mod Honest
pub mod Received
pub mod Agreed
pub mod Refused
pub mod Binding
pub mod Toy
mod Examples
use peerc.Common.{ℕ, List, Bool, Option, String}
use peerc.Protocol.Bytes.{Bytes}
use peerc.Protocol.Values.{Value, Fields}
use peerc.Crypto.Nonces.{NonceCache}
use peerc.Trust.Store.{TrustStore, TrustDecision, TrustError}

-- The classes below `HandshakeError`; `HandshakeProtocolError` by its message. The last two are
-- exceptions of other classes that leave the handshake.
pub data HandshakeError : Type 0 where
  timed_out identity_verification signature_verification device_revoked key_changed : HandshakeError
  read_failed invalid_message unexpected_type replayed invalid_ephemeral_key : HandshakeError
  not_recorded : TrustError → HandshakeError
  invalid_key : HandshakeError

-- The libraries: `compute_device_id` and the digest of the transcript are SHA-256; a key that is not
-- a public key, or an exchange that gives zeros, raises.
pub record Primitives : Type 0 where
  pub compute_device_id : Bytes → String
  pub is_public_key : Bytes → Bool
  pub verify : (public_key signature message : Bytes) → Bool
  pub canonical_json_bytes : Fields → Bytes
  pub sha256 : Bytes → Bytes
  pub exchange : (private_key public_key : Bytes) → Option Bytes

-- `DeviceKeypair` and `EphemeralKeypair`, by what the handshake uses of them.
pub record DeviceKeypair : Type 0 where
  pub device_id : String
  pub public_key : Bytes
  pub sign : Bytes → Bytes

pub record EphemeralKeypair : Type 0 where
  pub private_key : Bytes
  pub public_key : Bytes

pub record HandshakeResult : Type 0 where
  pub peer_device_id : String
  pub peer_public_key : String
  pub peer_name : String
  pub shared_secret : Bytes
  pub transcript_hash : Bytes
  pub trust_decision : TrustDecision

-- What reading a frame within the timeout gives.
pub data Arrival : Type 0 where
  timeout failure : Arrival
  frame : Value → Arrival

-- What a side shares with the other handshakes of the process.
pub record State : Type 0 where
  pub nonce_cache : NonceCache
  pub trust_store : Option TrustStore

pub data SecurityEvent : Type 0 where
  replay_detected auth_failed : String → SecurityEvent
