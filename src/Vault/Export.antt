-- ===== src/Vault/Export.antt =====
-- core/vault/session.py: the second secret of the export action, and the step-up check of a
-- passphrase. Random salts and nonces are arguments; a call that changes the keyfile returns it.
use peerc.Common.{
  [], ◌∷◌, ◌++◌, Bool, true, false, not, ◌&&◌, ◌||◌, Option, none, some, String, length, ◌==◌,
  if◌then◌else◌, Result, ok, err, ◌>>◌, ◌>>=◌, guard,
}
use peerc.Common.Dicts.{remove}
use peerc.Protocol.Bytes.{Bytes}
use peerc.Protocol.Values.{pos, Value, int, text, object, fields, get}
use peerc.Vault.Keyfile.{
  VaultError, session_locked, wrong_secret, already_configured, Primitives, VaultKeyfile,
  validate_passphrase, derive_kek, unlock_with_passphrase,
}
use peerc.Vault.Session.{
  VaultSession, setting_verifier, verifier_plaintext, read_setting, save_setting, require_unlocked,
  critical_action_key_configured,
}

-- The loop of `secrets_equal`; of the accumulated bits only whether one is set counts.
any_differs : Bytes → Bytes → Bool
any_differs (x ∷ a) (y ∷ b) = not (x == y) || any_differs a b
any_differs _ _ = false

unfoldable pub secrets_equal : Bytes → Bytes → Bool
unfolding any_differs
secrets_equal a b = length a == length b && not (any_differs a b)

-- DELETE FROM settings WHERE key = ?
unfoldable pub delete_setting : String → VaultSession → VaultSession
delete_setting key s = elim s.vault_db [
  | none ↦ s
  | some db ↦ record s { vault_db = some (remove key db) }
]

module _ (p : Primitives) where
  open p use {encode, hkdf, gcm_encrypt, gcm_decrypt, b64encode, b64decode}

  unfoldable pub verify_passphrase : VaultKeyfile → String → VaultSession → Result VaultError Bool
  verify_passphrase keyfile passphrase s = elim s.dek [
    | none ↦ err session_locked
    | some dek ↦ elim (unlock_with_passphrase p keyfile passphrase) [
      | err e ↦ ok false
      | ok candidate ↦ ok (secrets_equal candidate dek)
    ]
  ]

  unfoldable pub derive_critical_auth_key : Bytes → Bytes → Bytes → String → Bytes
  derive_critical_auth_key dek key_salt verifier_salt critical_secret =
      hkdf (dek ++ derive_kek p (encode critical_secret) key_salt) verifier_salt

  abbrev pub verifier : Bytes → Bytes → Value
  verifier nonce ciphertext = object (
      fields (
        ("version", int (pos 1))
        ∷ ("nonce", text (b64encode nonce))
        ∷ ("ciphertext", text (b64encode ciphertext))
        ∷ []))

  unfoldable pub write_critical_verifier :
      (key_salt verifier_salt nonce : Bytes)
      → VaultKeyfile
      → String
      → VaultSession
      → VaultKeyfile × VaultSession
  write_critical_verifier key_salt verifier_salt nonce keyfile critical_secret s = elim s.dek [
    | none ↦ (keyfile, s)
    | some dek ↦
        let auth_key = derive_critical_auth_key dek key_salt verifier_salt critical_secret in
        (
          record keyfile {
            critical_key_salt = some key_salt;
            critical_key_verifier_salt = some verifier_salt;
          },
          save_setting setting_verifier
              (verifier nonce (gcm_encrypt auth_key nonce verifier_plaintext)) s,
        )
  ]

  unfoldable pub set_critical_action_key :
      (key_salt verifier_salt nonce : Bytes)
      → VaultKeyfile
      → String
      → VaultSession
      → Result VaultError (VaultKeyfile × VaultSession)
  set_critical_action_key key_salt verifier_salt nonce keyfile critical_secret s =
      require_unlocked s
      >> guard (not (critical_action_key_configured keyfile)) already_configured
      >> validate_passphrase critical_secret none
      >> ok (write_critical_verifier key_salt verifier_salt nonce keyfile critical_secret s)

  -- The verifier that is stored, opened with a key.
  unfoldable pub opens_verifier : Bytes → Value → Value → Bool
  opens_verifier auth_key (text nonce_b64) (text ciphertext_b64) = elim (b64decode nonce_b64) [
    | none ↦ false
    | some nonce ↦ elim (b64decode ciphertext_b64) [
      | none ↦ false
      | some ciphertext ↦ elim (gcm_decrypt auth_key nonce ciphertext) [
        | none ↦ false
        | some plaintext ↦ secrets_equal plaintext verifier_plaintext
      ]
    ]
  ]
  opens_verifier auth_key _ _ = false

  unfoldable pub opens_record : Bytes → Option Value → Bool
  opens_record auth_key (some (object m)) = elim (get "nonce" m) [
    | none ↦ false
    | some nonce ↦ elim (get "ciphertext" m) [
      | none ↦ false
      | some ciphertext ↦ opens_verifier auth_key nonce ciphertext
    ]
  ]
  opens_record auth_key _ = false

  unfoldable pub opens_with :
      VaultKeyfile → String → VaultSession → Option Bytes → Option Bytes → Option Bytes → Bool
  opens_with keyfile critical_secret s (some dek) (some key_salt) (some verifier_salt) =
      opens_record (derive_critical_auth_key dek key_salt verifier_salt critical_secret)
        (read_setting setting_verifier s)
  opens_with keyfile critical_secret s _ _ _ = false

  unfoldable pub verify_critical_action_key :
      VaultKeyfile → String → VaultSession → Result VaultError Bool
  unfolding opens_with
  verify_critical_action_key keyfile critical_secret s =
      require_unlocked s
      >> ok (
          opens_with keyfile critical_secret s s.dek keyfile.critical_key_salt
            keyfile.critical_key_verifier_salt)

  require_key : VaultKeyfile → String → VaultSession → Result VaultError (Unit {0})
  require_key keyfile critical_secret s =
      verify_critical_action_key keyfile critical_secret s >>= λ right. guard right wrong_secret

  unfoldable pub change_critical_action_key :
      (key_salt verifier_salt nonce : Bytes)
      → VaultKeyfile
      → (old_secret new_secret : String) → VaultSession
      → Result VaultError (VaultKeyfile × VaultSession)
  unfolding require_key
  change_critical_action_key key_salt verifier_salt nonce keyfile old_secret new_secret s =
      require_unlocked s
      >> require_key keyfile old_secret s
      >> validate_passphrase new_secret none
      >> ok (write_critical_verifier key_salt verifier_salt nonce keyfile new_secret s)

  unfoldable pub clear_critical_action_key :
      VaultKeyfile → String → VaultSession → Result VaultError (VaultKeyfile × VaultSession)
  unfolding require_key
  clear_critical_action_key keyfile critical_secret s =
      require_unlocked s
      >> require_key keyfile critical_secret s
      >> ok (
        record keyfile { critical_key_salt = none; critical_key_verifier_salt = none },
        delete_setting setting_verifier s,
      )

  unfoldable pub authorize_export :
      VaultKeyfile → Option String → VaultSession → Result VaultError Bool
  authorize_export keyfile critical_secret s =
      require_unlocked s
      >> (if not (critical_action_key_configured keyfile) then ok true else elim critical_secret [
        | none ↦ ok false
        | some secret ↦ verify_critical_action_key keyfile secret s
      ])
