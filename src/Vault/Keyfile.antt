-- ===== src/Vault/Keyfile.antt =====
-- core/vault/keyfile.py and core/vault/crypto.py, the parts that a session uses. Scrypt, AES-GCM,
-- HKDF and the texts of bytes are parameters.
use peerc.Common.{
  ◌≡◌, ℕ, Option, none, some, String, str_eq, ltb, Result, ok, err, ◌>>◌, guard, not, All,
}
use peerc.Protocol.Bytes.{Byte, Bytes}
use peerc.Protocol.Values.{text_length}

pub data VaultError : Type 0 where
  session_locked wrong_secret already_configured negative_seconds dek_length : VaultError
  passphrase_empty passphrase_short passphrase_is_name : VaultError

-- What the code relies on: a ciphertext opens under its own key and nonce to what was sealed, it
-- is a byte string when the plaintext is one, and what was encoded decodes.
pub record Primitives : Type 0 where
  pub encode : String → Bytes
  pub scrypt : (secret salt : Bytes) → Bytes
  pub hkdf : (input_key_material salt : Bytes) → Bytes
  pub gcm_encrypt : (key nonce plaintext : Bytes) → Bytes
  pub gcm_decrypt : (key nonce ciphertext : Bytes) → Option Bytes
  pub b64encode : Bytes → String
  pub b64decode : String → Option Bytes
  pub decrypt-encrypt : (k n p : Bytes) → gcm_decrypt k n (gcm_encrypt k n p) ≡ some p
  pub encrypt-Byte : (k n p : Bytes) → All Byte p → All Byte (gcm_encrypt k n p)
  pub decode-encode : (b : Bytes) → All Byte b → b64decode (b64encode b) ≡ some b

pub record VaultKeyfile : Type 0 where
  pub passphrase_salt : Bytes
  pub wrapped_dek_passphrase : Bytes
  pub wrapped_dek_passphrase_nonce : Bytes
  pub critical_key_salt : Option Bytes
  pub critical_key_verifier_salt : Option Bytes

abbrev pub min_passphrase_len : ℕ
min_passphrase_len = 8

unfoldable pub validate_passphrase : String → Option String → Result VaultError (Unit {0})
validate_passphrase passphrase device_name =
    guard (not (str_eq passphrase "")) passphrase_empty
    >> guard (not (ltb (text_length passphrase) min_passphrase_len)) passphrase_short
    >> elim device_name [
      | none ↦ ok tt
      | some name ↦ guard (not (str_eq passphrase name)) passphrase_is_name
    ]

module _ (p : Primitives) where
  open p use {encode, scrypt, gcm_decrypt}

  unfoldable pub derive_kek : Bytes → Bytes → Bytes
  derive_kek secret salt = scrypt secret salt

  unfoldable pub unwrap_dek : Bytes → Bytes → Bytes → Result VaultError Bytes
  unwrap_dek kek ciphertext nonce = elim (gcm_decrypt kek nonce ciphertext) [
    | none ↦ err wrong_secret
    | some dek ↦ ok dek
  ]

  unfoldable pub unlock_with_passphrase : VaultKeyfile → String → Result VaultError Bytes
  unlock_with_passphrase keyfile passphrase =
      unwrap_dek (derive_kek (encode passphrase) keyfile.passphrase_salt)
        keyfile.wrapped_dek_passphrase keyfile.wrapped_dek_passphrase_nonce
