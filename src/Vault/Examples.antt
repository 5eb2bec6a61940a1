-- ===== src/Vault/Examples.antt =====
-- A vault over a toy cipher, which marks a ciphertext with the sum of its key.
use peerc.Common.{
  ◌≡◌, refl, ℕ, ◌+◌, ◌%◌, [], ◌∷◌, ◌++◌, true, false, Option, none, some, String, replicate, ok,
  err, ◌==◌, if◌then◌else◌, arith, All, ==_iff, ◌≢◌, ◌≤◌,
}
use peerc.Protocol.Bytes.{Byte, Bytes}
use peerc.Protocol.Hex.{codes, from_hex, to_hex, from_hex-to_hex}
use peerc.Common.Dicts.{lookup, insert}
use peerc.Protocol.Values.{pos, float, bool, text_length}
use peerc.Vault.Keyfile.{session_locked, Primitives, VaultKeyfile, validate_passphrase, derive_kek}
use peerc.Vault.Session.{
  VaultSession, default_auto_lock, setting_auto_lock, setting_incoming, setting_verifier,
  verifier_plaintext, is_unlocked, lock, unlock, load_settings, read_setting, save_setting, touch,
  requires_reauth, require_unlocked, critical_action_key_configured, Database, to_float, truth,
}
use peerc.Vault.Export.{
  verifier, verify_passphrase, set_critical_action_key, write_critical_verifier,
  derive_critical_auth_key, authorize_export,
}
use peerc.Vault.Gate.{export_gate}
use peerc.Vault.Locked.{
  touches, polls, asks, sets_key, perform, perform_all, IsLocked, idle_session_locks,
}

abbrev sum : Bytes → ℕ
sum [] = 0
sum (b ∷ bs) = b + sum bs

abbrev toy_decrypt : Bytes → Bytes → Option Bytes
toy_decrypt k [] = none
toy_decrypt k (mark ∷ p) = if mark == sum k % 256 then some p else none

toy_decrypt-encrypt : (k p : Bytes) → toy_decrypt k (sum k % 256 ∷ p) ≡ some p
toy_decrypt-encrypt k p = ground (arith, ==_iff (sum k % 256) (sum k % 256))

toy-Byte : (k p : Bytes) → All Byte p → All Byte (sum k % 256 ∷ p)
toy-Byte k p h = (omega arith, h)

abbrev toy : Primitives
toy = record {
  encode = codes;
  scrypt = λ secret salt. secret ++ salt;
  hkdf = λ ikm salt. ikm ++ salt;
  gcm_encrypt = λ k n p. sum k % 256 ∷ p;
  gcm_decrypt = λ k n c. toy_decrypt k c;
  b64encode = to_hex;
  b64decode = from_hex;
  decrypt-encrypt = λ k n p. toy_decrypt-encrypt k p;
  encrypt-Byte = λ k n p. toy-Byte k p;
  decode-encode = from_hex-to_hex;
}

abbrev fresh : VaultSession
fresh = record {
  auto_lock = default_auto_lock;
  require_passphrase_for_incoming = false;
  dek = none;
  vault_db = none;
  last_activity = 0;
  dont_ask_again_files = false;
}

abbrev key : Bytes
key = replicate 32 1

abbrev db : Database
db = (setting_auto_lock, float (pos 300000)) ∷ (setting_incoming, bool false) ∷ []

abbrev open_session : VaultSession
open_session = record fresh { dek = some key; vault_db = some db; last_activity = 1000 }

-- The first unlock of a vault writes the defaults.
first_unlock : unlock (λ t. none) 1000 key [] fresh ≡ ok open_session
unfolding unlock load_settings read_setting save_setting touch is_unlocked to_float truth lookup
    insert
first_unlock = refl

abbrev keyfile : VaultKeyfile
keyfile = record {
  passphrase_salt = 1 ∷ [];
  wrapped_dek_passphrase = 2 ∷ [];
  wrapped_dek_passphrase_nonce = [];
  critical_key_salt = none;
  critical_key_verifier_salt = none;
}

abbrev with_key : VaultKeyfile × VaultSession
with_key = (
  record keyfile { critical_key_salt = some (3 ∷ []); critical_key_verifier_salt = some (4 ∷ []) },
  record open_session {
    vault_db = some (
        insert setting_verifier
          (verifier toy (5 ∷ []) (
            toy.gcm_encrypt (derive_critical_auth_key toy key (3 ∷ []) (4 ∷ []) "password1")
              (5 ∷ []) verifier_plaintext))
          db);
  },
)

key_set :
    set_critical_action_key toy (3 ∷ []) (4 ∷ []) (5 ∷ []) keyfile "password1" open_session
    ≡ ok with_key
unfolding set_critical_action_key require_unlocked is_unlocked critical_action_key_configured
    validate_passphrase text_length write_critical_verifier save_setting
key_set = refl

other_refused :
    toy.gcm_decrypt (derive_critical_auth_key toy key (3 ∷ []) (4 ∷ []) "password2") (5 ∷ []) (
      toy.gcm_encrypt
        (derive_critical_auth_key toy key (3 ∷ []) (4 ∷ []) "password1")
        (5 ∷ [])
        verifier_plaintext)
    ≡ none
unfolding derive_critical_auth_key derive_kek codes
other_refused = refl

export_gate_example :
    (authorize_export toy with_key.0 none with_key.1 ≡ ok false)
    × (authorize_export toy with_key.0 (some "password1") with_key.1 ≡ ok true)
    × (authorize_export toy with_key.0 (some "password2") with_key.1 ≡ ok false)
    × ((given : Option String)
        → authorize_export toy with_key.0 given (lock with_key.1).0 ≡ err session_locked)
export_gate_example =
    export_gate toy (3 ∷ []) (4 ∷ []) (5 ∷ []) key keyfile with_key.0 "password1" "password2"
      open_session with_key.1 key_set (omega arith) refl other_refused

five_minutes_later : 1000 + default_auto_lock ≤ 400000
five_minutes_later = omega arith

timer_on : default_auto_lock ≢ 0
timer_on = ground arith

is_open : is_unlocked open_session ≡ true
unfolding is_unlocked
is_open = refl

abbrev left_alone : VaultSession
left_alone = perform_all toy (perform toy open_session (polls 400000)) (
    touches 400001
    ∷ asks true
    ∷ sets_key (3 ∷ []) (4 ∷ []) (5 ∷ []) keyfile "password1"
    ∷ polls 900000
    ∷ [])

idle_session_locks_example :
    IsLocked left_alone
    × (requires_reauth "export" left_alone ≡ true)
    × (requires_reauth "open" left_alone ≡ true)
    × ((keyfile : VaultKeyfile) (passphrase : String)
        → verify_passphrase toy keyfile passphrase left_alone ≡ err session_locked)
    × ((keyfile : VaultKeyfile) (given : Option String)
        → authorize_export toy keyfile given left_alone ≡ err session_locked)
idle_session_locks_example =
    idle_session_locks toy open_session 400000
      (touches 400001
        ∷ asks true
        ∷ sets_key (3 ∷ []) (4 ∷ []) (5 ∷ []) keyfile "password1"
        ∷ polls 900000
        ∷ [])
      is_open timer_on five_minutes_later
