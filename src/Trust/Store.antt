-- ===== src/Trust/Store.antt =====
-- core/trust/store.py and core/trust/revocation.py: trust on first use, approval, revocation and the
-- record of a key rotation. The table `trusted_devices` is a dict by its primary key.
pub mod Lasting
pub mod Origins
use peerc.Common.{
  ℕ, List, [], ◌∷◌, Bool, true, false, not, Option, none, some, String, str_eq, if◌then◌else◌,
  Result, ok, err,
}
use peerc.Common.Dicts.{Dict, lookup, insert}
use peerc.Group.Policy.{GroupStore, PolicyViolation, check_external_trust}

pub data TrustStatus : Type 0 where
  pending trusted revoked : TrustStatus

pub data TrustDecision : Type 0 where
  unknown pending trusted key_changed revoked : TrustDecision

pub record TrustedDevice : Type 0 where
  pub device_id : String
  pub public_key : String
  pub name : String
  pub first_seen : ℕ
  pub last_seen : ℕ
  pub status : TrustStatus
  pub revoked_by : Option String
  pub revoked_at : Option ℕ
  pub revoke_reason : Option String

pub record TransitionCertificate : Type 0 where
  pub old_device_id : String
  pub new_device_id : String
  pub old_public_key : String
  pub new_public_key : String
  pub timestamp : ℕ
  pub signature : String

-- The two tables, with `group_store` for the policy check.
pub record TrustStore : Type 0 where
  pub devices : Dict TrustedDevice
  pub transitions : List TransitionCertificate
  pub group_store : Option GroupStore

pub data TrustEvent : Type 0 where
  identity_changed revoked_device_attempt : String → TrustEvent
  invalid_rotation key_rotation : String → String → TrustEvent

pub data TrustError : Type 0 where
  already_known unknown_device is_revoked already_revoked : String → TrustError
  policy_violation : PolicyViolation → TrustError
  invalid_signature : String → String → TrustError

abbrev status_decision : TrustStatus → TrustDecision
status_decision revoked = revoked
status_decision trusted = trusted
status_decision pending = pending

abbrev status_events : String → TrustStatus → List TrustEvent
status_events device_id revoked = revoked_device_attempt device_id ∷ []
status_events device_id _ = []

-- `check`, with the events that it emits.
unfoldable pub check : TrustStore → String → String → List TrustEvent × TrustDecision
check store device_id public_key = elim (lookup device_id store.devices) [
  | none ↦ ([], unknown)
  | some device ↦
      if not (str_eq device.public_key public_key)
      then (identity_changed device_id ∷ [], key_changed)
      else (status_events device_id device.status, status_decision device.status)
]

abbrev put_device : String → TrustedDevice → TrustStore → TrustStore
put_device device_id device store = record store { devices = insert device_id device store.devices }

abbrev first_record : ℕ → String → String → String → TrustStatus → TrustedDevice
first_record now device_id public_key name status = record {
  device_id = device_id;
  public_key = public_key;
  name = name;
  first_seen = now;
  last_seen = now;
  status = status;
  revoked_by = none;
  revoked_at = none;
  revoke_reason = none;
}

-- `record_first_seen`
unfoldable pub record_first_seen :
    ℕ → TrustStore → String → String → String → TrustStore × Result TrustError (Unit {0})
record_first_seen now store device_id public_key name = elim (lookup device_id store.devices) [
  | some device ↦ (store, err (already_known device_id))
  | none ↦ elim (check_external_trust now store.group_store device_id).1 [
    | err violation ↦ (store, err (policy_violation violation))
    | ok _ ↦
        (put_device device_id (first_record now device_id public_key name pending) store, ok tt)
  ]
]

-- `touch_last_seen`
unfoldable pub touch_last_seen : ℕ → TrustStore → String → TrustStore
touch_last_seen now store device_id = elim (lookup device_id store.devices) [
  | none ↦ store
  | some device ↦ put_device device_id (record device { last_seen = now }) store
]

approved :
    TrustStore → String → TrustedDevice → TrustStatus → TrustStore × Result TrustError (Unit {0})
approved store device_id device revoked = (store, err (is_revoked device_id))
approved store device_id device _ =
    (put_device device_id (record device { status = trusted }) store, ok tt)

-- `approve`
unfoldable pub approve : TrustStore → String → TrustStore × Result TrustError (Unit {0})
unfolding approved
approve store device_id = elim (lookup device_id store.devices) [
  | none ↦ (store, err (unknown_device device_id))
  | some device ↦ approved store device_id device device.status
]

revoke_as :
    ℕ
    → TrustStore
    → String
    → String
    → Option String
    → TrustedDevice
    → TrustStatus
    → TrustStore × Result TrustError (Unit {0})
revoke_as now store device_id by reason device revoked = (store, err (already_revoked device_id))
revoke_as now store device_id by reason device _ = (
  put_device device_id
      (record device {
        status = revoked;
        revoked_by = some by;
        revoked_at = some now;
        revoke_reason = reason;
      })
      store,
  ok tt,
)

-- `revoke_device` with `_set_revoked`.
unfoldable pub revoke_device :
    ℕ → TrustStore → String → String → Option String → TrustStore × Result TrustError (Unit {0})
unfolding revoke_as
revoke_device now store device_id by reason = elim (lookup device_id store.devices) [
  | none ↦ (store, err (unknown_device device_id))
  | some device ↦ revoke_as now store device_id by reason device device.status
]

-- A new device of a trusted one: recorded as trusted, or a pending one promoted.
promote : ℕ → TrustStore → TransitionCertificate → String → Option TrustedDevice → TrustStore
promote now store cert name none =
    put_device cert.new_device_id
      (first_record now cert.new_device_id cert.new_public_key name trusted) store
promote now store cert name (some device) = elim device.status [
  | pending ↦
      put_device cert.new_device_id (record device { status = trusted; last_seen = now }) store
  | trusted ↦ store
  | revoked ↦ store
]

-- Only a trusted device carries its status over.
carry : ℕ → TrustStore → TransitionCertificate → Option TrustedDevice → TrustStore
unfolding promote
carry now store cert none = store
carry now store cert (some old) = elim old.status [
  | trusted ↦ promote now store cert old.name (lookup cert.new_device_id store.devices)
  | pending ↦ store
  | revoked ↦ store
]

abbrev is_revoked_row : Option TrustedDevice → Bool
is_revoked_row none = false
is_revoked_row (some device) = elim device.status [ revoked ↦ true | _ ↦ false ]

same_pair : TransitionCertificate → TransitionCertificate → Bool
same_pair a b =
    if str_eq a.old_device_id b.old_device_id then str_eq a.new_device_id b.new_device_id else false

-- INSERT OR REPLACE by the two device ids.
unfoldable pub replace_transition :
    TransitionCertificate → List TransitionCertificate → List TransitionCertificate
unfolding same_pair
replace_transition cert [] = cert ∷ []
replace_transition cert (c ∷ cs) =
    let rest = replace_transition cert cs in if same_pair c cert then rest else c ∷ rest

-- `verify` is `verify_transition_certificate`, over Ed25519.
module _ (verify : TransitionCertificate → Bool) where
  -- `record_rotation`
  unfoldable pub record_rotation :
      ℕ
      → TrustStore
      → TransitionCertificate
      → TrustStore × List TrustEvent × Result TrustError (Unit {0})
  unfolding carry
  record_rotation now store cert =
      let old = lookup cert.old_device_id store.devices in
      if not (verify cert)
      then (
        store,
        invalid_rotation cert.old_device_id cert.new_device_id ∷ [],
        err (invalid_signature cert.old_device_id cert.new_device_id),
      )
      else if is_revoked_row old
      then (
        store,
        revoked_device_attempt cert.old_device_id ∷ [],
        err (is_revoked cert.old_device_id),
      )
      else (
        carry now (record store { transitions = replace_transition cert store.transitions }) cert
            old,
        key_rotation cert.old_device_id cert.new_device_id ∷ [],
        ok tt,
      )
