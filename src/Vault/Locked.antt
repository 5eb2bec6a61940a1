-- ===== src/Vault/Locked.antt =====
-- A session that was left alone.
use peerc.Common.{
  ◌≡◌, refl, ℕ, ◌+◌, ◌≤◌, ◌≢◌, List, [], ◌∷◌, Bool, true, false, Option, none, String, Result, ok,
  err, arith,
}
use peerc.Protocol.Values.{ℤ, pos, negsuc}
use peerc.Vault.Keyfile.{VaultError, session_locked, Primitives, VaultKeyfile}
use peerc.Vault.Session.{
  VaultSession, touch, is_unlocked, lock, idle_expired, check_and_auto_lock,
  set_dont_ask_again_files, requires_reauth, save_setting, set_auto_lock_seconds,
  set_require_passphrase_for_incoming, require_unlocked,
}
use peerc.Vault.Export.{
  verify_passphrase, authorize_export, set_critical_action_key, change_critical_action_key,
  clear_critical_action_key,
}
use peerc.Protocol.Bytes.{Bytes}

-- The calls on a session that may change it, but for `unlock`.
pub data Call : Type 0 where
  touches polls : ℕ → Call
  locks : Call
  asks incoming : Bool → Call
  timeout : ℕ → ℤ → Call
  sets_key : (key_salt verifier_salt nonce : Bytes) → VaultKeyfile → String → Call
  changes_key :
      (key_salt verifier_salt nonce : Bytes)
      → VaultKeyfile
      → (old_secret new_secret : String) → Call
  clears_key : VaultKeyfile → String → Call

abbrev kept : VaultSession → Result VaultError VaultSession → VaultSession
kept s (ok after) = after
kept s (err e) = s

abbrev kept_beside : VaultSession → Result VaultError (VaultKeyfile × VaultSession) → VaultSession
kept_beside s (ok (keyfile, after)) = after
kept_beside s (err e) = s

-- The session after a call, also where it raises.
unfoldable pub perform : Primitives → VaultSession → Call → VaultSession
perform p s (touches now) = touch now s
perform p s (polls now) = (check_and_auto_lock now s).0
perform p s locks = (lock s).0
perform p s (asks enabled) = set_dont_ask_again_files enabled s
perform p s (incoming required) = set_require_passphrase_for_incoming required s
perform p s (timeout now seconds) = kept s (set_auto_lock_seconds now seconds s)
perform p s (sets_key key_salt verifier_salt nonce keyfile secret) =
    kept_beside s (set_critical_action_key p key_salt verifier_salt nonce keyfile secret s)
perform p s (changes_key key_salt verifier_salt nonce keyfile old_secret new_secret) =
    kept_beside s
      (change_critical_action_key p key_salt verifier_salt nonce keyfile old_secret new_secret s)
perform p s (clears_key keyfile secret) =
    kept_beside s (clear_critical_action_key p keyfile secret s)

unfoldable pub perform_all : Primitives → VaultSession → List Call → VaultSession
perform_all p s [] = s
perform_all p s (c ∷ cs) = perform_all p (perform p s c) cs

abbrev pub IsLocked : VaultSession → Type 0
IsLocked s = (s.dek ≡ none) × (s.vault_db ≡ none) × (s.dont_ask_again_files ≡ false)

refused : (s : VaultSession) → IsLocked s → require_unlocked s ≡ err session_locked
unfolding require_unlocked is_unlocked
refused s (d, v, f) = rw (d) refl

no_key_set :
    (p : Primitives) (s : VaultSession) (key_salt verifier_salt nonce : Bytes)
    (keyfile : VaultKeyfile) (secret : String)
    → IsLocked s
    → set_critical_action_key p key_salt verifier_salt nonce keyfile secret s ≡ err session_locked
unfolding set_critical_action_key
no_key_set p s key_salt verifier_salt nonce keyfile secret h = rw (refused s h) refl

no_key_changed :
    (p : Primitives) (s : VaultSession) (key_salt verifier_salt nonce : Bytes)
    (keyfile : VaultKeyfile) (old new : String)
    → IsLocked s
    → change_critical_action_key p key_salt verifier_salt nonce keyfile old new s
      ≡ err session_locked
unfolding change_critical_action_key
no_key_changed p s key_salt verifier_salt nonce keyfile old new h = rw (refused s h) refl

no_key_cleared :
    (p : Primitives) (s : VaultSession) (keyfile : VaultKeyfile) (secret : String)
    → IsLocked s
    → clear_critical_action_key p keyfile secret s ≡ err session_locked
unfolding clear_critical_action_key
no_key_cleared p s keyfile secret h = rw (refused s h) refl

perform-IsLocked :
    (p : Primitives) (s : VaultSession) (c : Call) → IsLocked s → IsLocked (perform p s c)
unfolding perform touch is_unlocked check_and_auto_lock idle_expired lock set_dont_ask_again_files
    set_require_passphrase_for_incoming save_setting set_auto_lock_seconds
perform-IsLocked p s (touches now) h = ground arith
perform-IsLocked p s (polls now) h = ground arith
perform-IsLocked p s locks h = ground arith
perform-IsLocked p s (asks enabled) h = ground arith
perform-IsLocked p s (incoming required) h = ground arith
perform-IsLocked p s (timeout now (pos n)) h = ground arith
perform-IsLocked p s (timeout now (negsuc n)) h = h
perform-IsLocked p s (sets_key key_salt verifier_salt nonce keyfile secret) h =
    rw (no_key_set p s key_salt verifier_salt nonce keyfile secret h) h
perform-IsLocked p s (changes_key key_salt verifier_salt nonce keyfile old new) h =
    rw (no_key_changed p s key_salt verifier_salt nonce keyfile old new h) h
perform-IsLocked p s (clears_key keyfile secret) h = rw (no_key_cleared p s keyfile secret h) h

perform_all-IsLocked :
    (p : Primitives) (s : VaultSession) (cs : List Call)
    → IsLocked s
    → IsLocked (perform_all p s cs)
unfolding perform_all
perform_all-IsLocked p s [] h = h
perform_all-IsLocked p s (c ∷ cs) h =
    perform_all-IsLocked p (perform p s c) cs (perform-IsLocked p s c h)

idle-IsLocked :
    (s : VaultSession) (now : ℕ)
    → is_unlocked s ≡ true
    → s.auto_lock ≢ 0
    → s.last_activity + s.auto_lock ≤ now
    → IsLocked (check_and_auto_lock now s).0
unfolding check_and_auto_lock idle_expired lock
idle-IsLocked s now unlocked timed idle = ground arith

locked_refuses :
    (p : Primitives) (s : VaultSession)
    → IsLocked s
    → (requires_reauth "export" s ≡ true)
      × (requires_reauth "open" s ≡ true)
      × ((keyfile : VaultKeyfile) (passphrase : String)
          → verify_passphrase p keyfile passphrase s ≡ err session_locked)
      × ((keyfile : VaultKeyfile) (given : Option String)
          → authorize_export p keyfile given s ≡ err session_locked)
unfolding requires_reauth is_unlocked verify_passphrase authorize_export require_unlocked
locked_refuses p s (d, v, f) =
    (rw (f) refl, rw (f) refl, λ keyfile passphrase. rw (d) refl, λ keyfile given. rw (d) refl)

-- A session whose timer is on and that was idle for its time is locked by the next poll, and stays
-- so through any calls but `unlock`: the key and the database are gone, opening and exporting ask for the
-- passphrase again, and both the check of a passphrase and an export raise.
pub idle_session_locks :
    (p : Primitives) (s : VaultSession) (now : ℕ) (cs : List Call)
    → is_unlocked s ≡ true
    → s.auto_lock ≢ 0
    → s.last_activity + s.auto_lock ≤ now
    → IsLocked (perform_all p (perform p s (polls now)) cs)
      × (requires_reauth "export" (perform_all p (perform p s (polls now)) cs) ≡ true)
      × (requires_reauth "open" (perform_all p (perform p s (polls now)) cs) ≡ true)
      × ((keyfile : VaultKeyfile) (passphrase : String)
          → verify_passphrase p keyfile passphrase (perform_all p (perform p s (polls now)) cs)
            ≡ err session_locked)
      × ((keyfile : VaultKeyfile) (given : Option String)
          → authorize_export p keyfile given (perform_all p (perform p s (polls now)) cs)
            ≡ err session_locked)
unfolding perform
idle_session_locks p s now cs unlocked timed idle =
    let still =
      perform_all-IsLocked p (perform p s (polls now)) cs
        (idle-IsLocked s now unlocked timed idle) in
    let (export, opening, passphrases, exports) =
      locked_refuses p (perform_all p (perform p s (polls now)) cs) still in
    (still, export, opening, passphrases, exports)
