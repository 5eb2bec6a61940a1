-- ===== src/Vault/Gate.antt =====
-- The export action behind both secrets: the key of the open session and the one that is entered.
use peerc.Common.{
  ◌≡◌, refl, sym, ap, ◌∙◌, Bool, true, false, Option, none, some, String, ok, err, arith, All,
}
use peerc.Common.Dicts.{lookup-insert, insert}
use peerc.Protocol.Bytes.{Byte, Bytes}
use peerc.Protocol.Hex.{codes}
use peerc.Protocol.Values.{text, object, Fields, get}
use peerc.Vault.Keyfile.{session_locked, Primitives, VaultKeyfile}
use peerc.Vault.Session.{
  VaultSession, Database, setting_verifier, verifier_plaintext, is_unlocked, lock, read_setting,
  save_setting, require_unlocked, critical_action_key_configured,
}
use peerc.Vault.Export.{
  secrets_equal, verifier, derive_critical_auth_key, write_critical_verifier,
  set_critical_action_key, opens_verifier, opens_record, opens_with, verify_critical_action_key,
  authorize_export,
}

read-stored :
    (s : VaultSession) (db : Database) (m : Fields)
    → s.vault_db ≡ some (insert setting_verifier (object m) db)
    → read_setting setting_verifier s ≡ some (object m)
unfolding read_setting
read-stored s db m h = ground (arith, lookup-insert setting_verifier setting_verifier (object m) db)

same_plaintext : secrets_equal verifier_plaintext verifier_plaintext ≡ true
unfolding secrets_equal codes
same_plaintext = refl

plaintext-Byte : All Byte verifier_plaintext
unfolding codes
plaintext-Byte = omega arith

module _ (p : Primitives) where
  open p use {gcm_encrypt, gcm_decrypt, b64encode, encrypt-Byte, decode-encode, decrypt-encrypt}

  abbrev judged : Option Bytes → Bool
  judged none = false
  judged (some plaintext) = secrets_equal plaintext verifier_plaintext

  verifier-judged :
      (key nonce ciphertext : Bytes)
      → All Byte nonce
      → All Byte ciphertext
      → opens_verifier p key (text (b64encode nonce)) (text (b64encode ciphertext))
        ≡ judged (gcm_decrypt key nonce ciphertext)
  unfolding opens_verifier
  verifier-judged key nonce ciphertext hn hc =
      ground (arith, decode-encode nonce hn, decode-encode ciphertext hc)

  opens-stored :
      (key nonce ciphertext : Bytes)
      → All Byte nonce
      → All Byte ciphertext
      → opens_record p key (some (verifier p nonce ciphertext))
        ≡ judged (gcm_decrypt key nonce ciphertext)
  unfolding opens_record get
  opens-stored key nonce ciphertext hn hc = verifier-judged key nonce ciphertext hn hc

  -- Both secrets are there.
  authorize-known :
      (keyfile : VaultKeyfile) (s : VaultSession) (dek a b : Bytes) (db : Database)
      → s.dek ≡ some dek
      → s.vault_db ≡ some db
      → keyfile.critical_key_salt ≡ some a
      → keyfile.critical_key_verifier_salt ≡ some b
      → (authorize_export p keyfile none s ≡ ok false)
        × ((secret : String)
            → authorize_export p keyfile (some secret) s
              ≡ ok (
                  opens_record p
                    (derive_critical_auth_key p dek a b secret)
                    (read_setting setting_verifier s)))
  unfolding authorize_export verify_critical_action_key require_unlocked is_unlocked
      critical_action_key_configured opens_with
  authorize-known keyfile s dek a b db opened stored salted sealed =
      (rw (opened, stored, salted, sealed) refl, λ secret. rw (opened, stored, salted, sealed) refl)

  authorize-locked :
      (keyfile : VaultKeyfile) (given : Option String) (s : VaultSession)
      → authorize_export p keyfile given (lock s).0 ≡ err session_locked
  unfolding authorize_export require_unlocked is_unlocked lock
  authorize-locked keyfile given s = refl

  set_critical-ok :
      (a b nonce : Bytes) (keyfile keyfile' : VaultKeyfile) (secret : String) (s s' : VaultSession)
      → set_critical_action_key p a b nonce keyfile secret s ≡ ok (keyfile', s')
      → (is_unlocked s ≡ true)
        × (write_critical_verifier p a b nonce keyfile secret s ≡ (keyfile', s'))
  unfolding set_critical_action_key require_unlocked
  set_critical-ok a b nonce keyfile keyfile' secret s s' h = ground arith

  unlocked-known :
      (s : VaultSession)
      → is_unlocked s ≡ true
      → (dek : Bytes) × (db : Database) × (s.dek ≡ some dek) × (s.vault_db ≡ some db)
  unfolding is_unlocked
  unlocked-known s h = ground arith

  write-known :
      (a b nonce dek : Bytes) (db : Database) (keyfile : VaultKeyfile) (secret : String)
      (s : VaultSession)
      → s.dek ≡ some dek
      → s.vault_db ≡ some db
      → write_critical_verifier p a b nonce keyfile secret s ≡ (
        record keyfile { critical_key_salt = some a; critical_key_verifier_salt = some b },
        record s {
          vault_db = some (
              insert setting_verifier
                (verifier p nonce (
                  gcm_encrypt (derive_critical_auth_key p dek a b secret) nonce verifier_plaintext))
                db);
        },
      )
  unfolding write_critical_verifier save_setting
  write-known a b nonce dek db keyfile secret s opened stored = ground arith

  -- Where setting the key of the export action returned: an export without it is refused, with it is
  -- allowed, with a text whose key the cipher refuses is not, and once the session is locked every
  -- export raises, whatever is entered.
  pub export_gate :
      (a b nonce dek : Bytes) (keyfile keyfile' : VaultKeyfile) (secret other : String)
      (s s' : VaultSession)
      → set_critical_action_key p a b nonce keyfile secret s ≡ ok (keyfile', s')
      → All Byte nonce
      → s.dek ≡ some dek
      → gcm_decrypt
          (derive_critical_auth_key p dek a b other)
          nonce
          (gcm_encrypt (derive_critical_auth_key p dek a b secret) nonce verifier_plaintext)
        ≡ none
      → (authorize_export p keyfile' none s' ≡ ok false)
        × (authorize_export p keyfile' (some secret) s' ≡ ok true)
        × (authorize_export p keyfile' (some other) s' ≡ ok false)
        × ((given : Option String)
            → authorize_export p keyfile' given (lock s').0 ≡ err session_locked)
  export_gate a b nonce dek keyfile keyfile' secret other s s' h bytes opened refused =
      let (unlocked, written) = set_critical-ok a b nonce keyfile keyfile' secret s s' h in
      let (_, db, _, stored) = unlocked-known s unlocked in
      let shape = sym written ∙ write-known a b nonce dek db keyfile secret s opened stored in
      let key = derive_critical_auth_key p dek a b secret in
      let sealed = gcm_encrypt key nonce verifier_plaintext in
      let held = ap (λ (q : VaultKeyfile × VaultSession). q.1.vault_db) shape in
      let (none_given, some_given) =
        authorize-known keyfile' s' dek a b (insert setting_verifier (verifier p nonce sealed) db)
          (ap (λ (q : VaultKeyfile × VaultSession). q.1.dek) shape ∙ opened) held
          (ap (λ (q : VaultKeyfile × VaultSession). q.0.critical_key_salt) shape)
          (ap (λ (q : VaultKeyfile × VaultSession). q.0.critical_key_verifier_salt) shape) in
      let found : read_setting setting_verifier s' ≡ some (verifier p nonce sealed) =
        read-stored s' db _ held in
      let answer = λ (x : String).
        some_given x
        ∙ ap ok (
            ap (opens_record p (derive_critical_auth_key p dek a b x)) found
            ∙ opens-stored (derive_critical_auth_key p dek a b x) nonce sealed bytes
                (encrypt-Byte key nonce verifier_plaintext plaintext-Byte)) in
      (
        none_given,
        answer secret
            ∙ ap ok (ap judged (decrypt-encrypt key nonce verifier_plaintext) ∙ same_plaintext),
        answer other ∙ ap ok (ap judged refused),
        λ given. authorize-locked keyfile' given s',
      )
