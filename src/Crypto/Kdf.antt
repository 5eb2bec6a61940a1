-- ===== src/Crypto/Kdf.antt =====
-- core/crypto/kdf.py: one key for each direction. HKDF is a parameter; arguments that are not bytes
-- are ruled out by the types, HKDF does not raise, and the session's name is left as bytes, not hex.
use peerc.Common.{
  ◌≡◌, ℕ, Bool, true, false, not, length, ◌==◌, if◌then◌else◌, Result, ok, err, arith,
}
use peerc.Protocol.Bytes.{Bytes}

pub data KdfError : Type 0 where
  shared_secret_length salt_length : ℕ → KdfError

pub record SessionKeys : Type 0 where
  pub send_key : Bytes
  pub recv_key : Bytes
  pub session_id : Bytes

-- The `info` strings that tell the three derivations apart.
pub data Info : Type 0 where
  init_to_resp resp_to_init session : Info

-- HKDF-SHA256 expanded to a length; it gives as many bytes as were asked for.
pub record Hkdf : Type 0 where
  pub expand : (ikm salt : Bytes) → Info → (len : ℕ) → Bytes
  pub length-expand :
      (ikm salt : Bytes) (info : Info) (len : ℕ) → length (expand ikm salt info len) ≡ len

abbrev pub key_len : ℕ
key_len = 32

abbrev pub session_id_len : ℕ
session_id_len = 16

module _ (hkdf : Hkdf) where
  open hkdf use {expand, length-expand}

  unfoldable pub derive_session_keys : Bytes → Bytes → Bool → Result KdfError SessionKeys
  derive_session_keys shared_secret salt is_initiator =
      if not (length shared_secret == 32)
      then err (shared_secret_length (length shared_secret))
      else if not (length salt == 32)
      then err (salt_length (length salt))
      else (let init_to_resp_key = expand shared_secret salt init_to_resp key_len in
          let resp_to_init_key = expand shared_secret salt resp_to_init key_len in
          let session_id_bytes = expand shared_secret salt session session_id_len in
          if is_initiator
          then ok (record {
            send_key = init_to_resp_key;
            recv_key = resp_to_init_key;
            session_id = session_id_bytes;
          })
          else ok (record {
            send_key = resp_to_init_key;
            recv_key = init_to_resp_key;
            session_id = session_id_bytes;
          }))

  -- The two ends of a handshake, from the same secret and transcript, agree on the session, and each
  -- sends with the key with which the other receives, both of the length that the cipher wants.
  derive_session_keys-agree :
      (shared_secret salt : Bytes) {a b : SessionKeys}
      → derive_session_keys shared_secret salt true ≡ ok a
      → derive_session_keys shared_secret salt false ≡ ok b
      → (a.send_key ≡ b.recv_key)
        × (a.recv_key ≡ b.send_key)
        × (a.session_id ≡ b.session_id)
        × (length a.send_key ≡ key_len)
        × (length a.recv_key ≡ key_len)
  unfolding derive_session_keys
  derive_session_keys-agree shared_secret salt p q = ground (
    arith,
    length-expand shared_secret salt init_to_resp key_len,
    length-expand shared_secret salt resp_to_init key_len,
  )
