-- ===== src/Crypto/Channel.antt =====
-- core/crypto/encryption.py: one session's encrypted channel. ChaCha20-Poly1305 is a parameter. A
-- method returns the channel that it leaves and its result, also where it raises.
pub mod Sequence
pub mod Receive
pub mod Delivery
use peerc.Common.{
  ◌≡◌, ℕ, ◌+◌, ◌-◌, ◌^◌, Bool, not, ◌&&◌, ◌||◌, Option, none, some, length, ltb, ◌==◌,
  if◌then◌else◌, Result, ok, err, ◌>>=◌,
}
use peerc.Protocol.Bytes.{Bytes, pack}
use peerc.Crypto.Kdf.{SessionKeys, key_len}

pub data EncryptionError : Type 0 where
  session_keys_length decryption_failed : EncryptionError
  replay_or_reorder : ℕ → ℕ → EncryptionError
  sequence_exhausted : ℕ → EncryptionError

-- What the code relies on of the cipher: it is deterministic, and a ciphertext opens, under the same
-- key, nonce and associated data, to the plaintext that it was made from.
pub record Aead : Type 0 where
  pub seal : (key nonce plaintext associated_data : Bytes) → Bytes
  pub unseal : (key nonce ciphertext associated_data : Bytes) → Option Bytes
  pub unseal-seal : (k n p a : Bytes) → unseal k n (seal k n p a) a ≡ some p

abbrev pub nonce_len : ℕ
nonce_len = 12

abbrev pub max_sequence : ℕ
max_sequence = 2 ^ 96 - 1

unfoldable pub construct_nonce : ℕ → Result EncryptionError Bytes
construct_nonce sequence =
    if ltb max_sequence sequence
    then err (sequence_exhausted sequence)
    else ok (pack nonce_len sequence)

pub record EncryptedFrame : Type 0 where
  pub sequence : ℕ
  pub ciphertext : Bytes

pub record SecureChannel : Type 0 where
  pub session_keys : SessionKeys
  pub send_sequence : ℕ
  pub expected_recv_sequence : ℕ

-- The constructor with its `__post_init__`.
unfoldable pub secure_channel : SessionKeys → Result EncryptionError SecureChannel
secure_channel keys =
    if not (length keys.send_key == key_len) || not (length keys.recv_key == key_len)
    then err session_keys_length
    else ok (record { session_keys = keys; send_sequence = 0; expected_recv_sequence = 0 })

module _ (aead : Aead) where
  open aead use {seal, unseal}

  encrypt_under :
      SecureChannel
      → Bytes
      → Bytes
      → Result EncryptionError Bytes
      → SecureChannel × Result EncryptionError EncryptedFrame
  encrypt_under channel plaintext associated_data (err e) = (channel, err e)
  encrypt_under channel plaintext associated_data (ok nonce) = (
    record channel { send_sequence = channel.send_sequence + 1 },
    ok (record {
      sequence = channel.send_sequence;
      ciphertext = seal channel.session_keys.send_key nonce plaintext associated_data;
    }),
  )

  unfoldable pub encrypt :
      SecureChannel → Bytes → Bytes → SecureChannel × Result EncryptionError EncryptedFrame
  unfolding encrypt_under
  encrypt channel plaintext associated_data =
      encrypt_under channel plaintext associated_data (construct_nonce channel.send_sequence)

  opened : SecureChannel → Option Bytes → SecureChannel × Result EncryptionError Bytes
  opened channel none = (channel, err decryption_failed)
  opened channel (some plaintext) =
      (record channel { expected_recv_sequence = channel.expected_recv_sequence + 1 }, ok plaintext)

  decrypt_under :
      SecureChannel
      → Bytes
      → Bytes
      → Result EncryptionError Bytes
      → SecureChannel × Result EncryptionError Bytes
  unfolding opened
  decrypt_under channel ciphertext associated_data (err e) = (channel, err e)
  decrypt_under channel ciphertext associated_data (ok nonce) =
      opened channel (unseal channel.session_keys.recv_key nonce ciphertext associated_data)

  unfoldable pub decrypt :
      SecureChannel → ℕ → Bytes → Bytes → SecureChannel × Result EncryptionError Bytes
  unfolding decrypt_under
  decrypt channel sequence ciphertext associated_data =
      if not (sequence == channel.expected_recv_sequence)
      then (channel, err (replay_or_reorder channel.expected_recv_sequence sequence))
      else decrypt_under channel ciphertext associated_data (construct_nonce sequence)
