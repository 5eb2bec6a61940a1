-- ===== src/Vault/Session.antt =====
-- core/vault/session.py: VaultSession, its lock, its idle timer and the key of the export action.
-- Times are thousandths of a second, and `now` is what the monotonic clock says in a call.
use peerc.Common.{
  ℕ, ◌+◌, ◌-◌, ◌*◌, Bool, true, false, not, ◌&&◌, ◌||◌, Option, none, some, String, str_eq, length,
  leb, ◌==◌, if◌then◌else◌, Result, ok, err, guard,
}
use peerc.Common.Dicts.{Dict, lookup, insert}
use peerc.Protocol.Bytes.{Bytes}
use peerc.Protocol.Hex.{codes}
use peerc.Protocol.Values.{
  ℤ, pos, negsuc, Value, null, bool, int, float, text, array, object, nil, end,
}
use peerc.Vault.Keyfile.{VaultError, session_locked, negative_seconds, dek_length, VaultKeyfile}

abbrev pub default_auto_lock : ℕ
default_auto_lock = 300000

abbrev pub setting_auto_lock : String
setting_auto_lock = "auto_lock_timeout_seconds"

abbrev pub setting_incoming : String
setting_incoming = "require_passphrase_for_incoming"

abbrev pub setting_verifier : String
setting_verifier = "critical_key_verifier"

abbrev pub verifier_plaintext : Bytes
verifier_plaintext = codes "peerc-critical-export-verifier-v1"

-- The table `settings` of the vault database.
abbrev pub Database : Type 0
Database = Dict Value

pub record VaultSession : Type 0 where
  pub auto_lock : ℕ
  pub require_passphrase_for_incoming : Bool
  pub dek : Option Bytes
  pub vault_db : Option Database
  pub last_activity : ℕ
  pub dont_ask_again_files : Bool

abbrev pub is_some {ℓ} : {A : Type ℓ} → Option A → Bool
is_some none = false
is_some (some a) = true

unfoldable pub is_unlocked : VaultSession → Bool
is_unlocked s = is_some s.dek && is_some s.vault_db

unfoldable pub touch : ℕ → VaultSession → VaultSession
touch now s = if is_unlocked s then record s { last_activity = now } else s

-- `lock`, with the database that is flushed and closed.
unfoldable pub lock : VaultSession → VaultSession × Option Database
lock s = (record s { dek = none; vault_db = none; dont_ask_again_files = false }, s.vault_db)

unfoldable pub idle_expired : ℕ → VaultSession → Bool
idle_expired now s =
    is_unlocked s && (not (s.auto_lock == 0) && leb s.auto_lock (now - s.last_activity))

unfoldable pub seconds_until_lock : ℕ → VaultSession → Option ℕ
seconds_until_lock now s =
    if not (is_unlocked s) || s.auto_lock == 0
    then none
    else some (s.auto_lock - (now - s.last_activity))

unfoldable pub check_and_auto_lock : ℕ → VaultSession → VaultSession × Bool
check_and_auto_lock now s = if idle_expired now s then ((lock s).0, true) else (s, false)

unfoldable pub set_dont_ask_again_files : Bool → VaultSession → VaultSession
set_dont_ask_again_files enabled s =
    if enabled && not (is_unlocked s) then s else record s { dont_ask_again_files = enabled }

-- An action that went through `lower` and `strip`.
unfoldable pub requires_reauth : String → VaultSession → Bool
requires_reauth action s =
    if str_eq action "chat"
    then false
    else if str_eq action "incoming_transfer"
    then s.require_passphrase_for_incoming
    else if str_eq action "open"
        || str_eq action "export"
        || str_eq action "move_to_secure"
        || str_eq action "delete"
    then not (s.dont_ask_again_files && is_unlocked s)
    else true

unfoldable pub read_setting : String → VaultSession → Option Value
read_setting key s = elim s.vault_db [
  | none ↦ none
  | some db ↦ elim (lookup key db) [ none ↦ none | some null ↦ none | some v ↦ some v ]
]

unfoldable pub save_setting : String → Value → VaultSession → VaultSession
save_setting key value s = elim s.vault_db [
  | none ↦ s
  | some db ↦ record s { vault_db = some (insert key value db) }
]

-- `bool(v)`
unfoldable pub truth : Value → Bool
truth null = false
truth (bool b) = b
truth (int (pos n)) = not (n == 0)
truth (int (negsuc n)) = true
truth (float (pos n)) = not (n == 0)
truth (float (negsuc n)) = true
truth (text s) = not (str_eq s "")
truth (array nil) = false
truth (array items) = true
truth (object end) = false
truth (object m) = true

module _ (float_of_text : String → Option ℤ) where
  -- `float(v)`, which raises TypeError or ValueError.
  unfoldable pub to_float : Value → Option ℤ
  to_float (bool b) = some (pos (if b then 1000 else 0))
  to_float (int (pos n)) = some (pos (n * 1000))
  to_float (int (negsuc n)) = some (negsuc (n * 1000 + 999))
  to_float (float z) = some z
  to_float (text s) = float_of_text s
  to_float v = none

  load_auto_lock : VaultSession → VaultSession
  load_auto_lock s = elim (read_setting setting_auto_lock s) [
    | none ↦ save_setting setting_auto_lock (float (pos s.auto_lock)) s
    | some v ↦ elim (to_float v) [
      | some (pos n) ↦ record s { auto_lock = n }
      | some (negsuc n) ↦ s
      | none ↦ s
    ]
  ]

  load_incoming : VaultSession → VaultSession
  load_incoming s = elim (read_setting setting_incoming s) [
    | none ↦ save_setting setting_incoming (bool s.require_passphrase_for_incoming) s
    | some v ↦ record s { require_passphrase_for_incoming = truth v }
  ]

  unfoldable pub load_settings : VaultSession → VaultSession
  unfolding load_auto_lock load_incoming
  load_settings s = load_incoming (load_auto_lock s)

  unfoldable pub unlock : ℕ → Bytes → Database → VaultSession → Result VaultError VaultSession
  unlock now dek db s =
      if not (length dek == 32)
      then err dek_length
      else ok (
          touch now (
            load_settings
              (record s { dek = some dek; vault_db = some db; dont_ask_again_files = false })))

unfoldable pub set_auto_lock_seconds : ℕ → ℤ → VaultSession → Result VaultError VaultSession
set_auto_lock_seconds now (negsuc n) s = err negative_seconds
set_auto_lock_seconds now (pos n) s =
    ok (touch now (save_setting setting_auto_lock (float (pos n)) (record s { auto_lock = n })))

unfoldable pub set_require_passphrase_for_incoming : Bool → VaultSession → VaultSession
set_require_passphrase_for_incoming required s =
    save_setting setting_incoming (bool required)
      (record s { require_passphrase_for_incoming = required })

unfoldable pub require_unlocked : VaultSession → Result VaultError (Unit {0})
require_unlocked s = guard (is_unlocked s) session_locked

unfoldable pub critical_action_key_configured : VaultKeyfile → Bool
critical_action_key_configured keyfile =
    is_some keyfile.critical_key_salt && is_some keyfile.critical_key_verifier_salt
