-- ===== src/Trust/Store/Lasting.antt =====
-- What no sequence of operations on the trust store undoes: a stored key, and a revocation.
use peerc.Common.{
  ◌≡◌, refl, sym, ap, ◌∙◌, ◌⊎◌, inl, inr, ℕ, List, [], ◌∷◌, Bool, Option, none, some, if◌then◌else◌,
  String, str_eq, eq_iff, arith, Bool-cases, Option-cases, Result-cases,
}
use peerc.Common.Dicts.{Dict, lookup, insert, lookup-insert}
use peerc.Group.Policy.{check_external_trust}
use peerc.Trust.Store.{
  TrustStatus, pending, trusted, revoked, key_changed, TrustedDevice, TransitionCertificate,
  TrustStore, first_record, check, record_first_seen, touch_last_seen, approved, approve, revoke_as,
  revoke_device, promote, carry, is_revoked_row, replace_transition, record_rotation,
}

-- The key is the same, and a revocation stands.
abbrev pub Keeps : TrustedDevice → TrustedDevice → Type 0
Keeps d e = (e.public_key ≡ d.public_key) × (d.status ≡ revoked → e.status ≡ revoked)

abbrev pub KeepsAt : String → Dict TrustedDevice → Dict TrustedDevice → Type 0
KeepsAt id before after =
    (d : TrustedDevice)
    → lookup id before ≡ some d
    → (e : TrustedDevice) × (lookup id after ≡ some e) × Keeps d e

put-KeepsAt :
    (id k : String) (v : TrustedDevice) (devices : Dict TrustedDevice)
    → (lookup k devices ≡ none) ⊎ ((w : TrustedDevice) × (lookup k devices ≡ some w) × Keeps w v)
    → KeepsAt id devices (insert k v devices)
put-KeepsAt id k v devices old d h = elim (Bool-cases (str_eq k id)) [
  | inr other ↦ (d, ground (arith, lookup-insert k id v devices), (refl, λ r. r))
  | inl here ↦
      let key : k ≡ id = ground (arith, eq_iff k id) in
      let there : lookup k devices ≡ some d = ap (λ i. lookup i devices) key ∙ h in
      (
        v,
        ground (arith, lookup-insert k id v devices),
        elim old [
          | inl missing ↦ absurd (ground arith)
          | inr (w, found, keeps) ↦ let same : w ≡ d = ground arith in rw (sym same) keeps
        ],
      )
]

same-KeepsAt : (id : String) (devices : Dict TrustedDevice) → KeepsAt id devices devices
same-KeepsAt id devices d h = (d, h, (refl, λ r. r))

-- The devices after a call, named by an equation.
via :
    (id : String) (before after named : Dict TrustedDevice)
    → after ≡ named
    → KeepsAt id before named
    → KeepsAt id before after
via id before after named e kept = rw (e) kept

first_seen-KeepsAt :
    (now : ℕ) (store : TrustStore) (device_id key name id : String)
    → KeepsAt id store.devices (record_first_seen now store device_id key name).0.devices
unfolding record_first_seen
first_seen-KeepsAt now store device_id key name id =
    elim (Option-cases (lookup device_id store.devices)) [
      | inr (d, known) ↦ via id store.devices _ _ (ground arith) (same-KeepsAt id store.devices)
      | inl new ↦ elim (Result-cases (check_external_trust now store.group_store device_id).1) [
        | inl (v, refused) ↦ via id store.devices _ _ (ground arith) (same-KeepsAt id store.devices)
        | inr (u, passed) ↦ via id store.devices _ _ (ground arith) (
            put-KeepsAt id device_id (first_record now device_id key name pending) store.devices
              (inl new))
      ]
    ]

touch-KeepsAt :
    (now : ℕ) (store : TrustStore) (device_id id : String)
    → KeepsAt id store.devices (touch_last_seen now store device_id).devices
unfolding touch_last_seen
touch-KeepsAt now store device_id id = elim (Option-cases (lookup device_id store.devices)) [
  | inl new ↦ via id store.devices _ _ (ground arith) (same-KeepsAt id store.devices)
  | inr (d, known) ↦ via id store.devices _ _ (ground arith) (
      put-KeepsAt id device_id (record d { last_seen = now }) store.devices
        (inr (d, known, (refl, λ r. r))))
]

approved-KeepsAt :
    (store : TrustStore) (device_id id : String) (d : TrustedDevice) (s : TrustStatus)
    → lookup device_id store.devices ≡ some d
    → d.status ≡ s
    → KeepsAt id store.devices (approved store device_id d s).0.devices
unfolding approved
approved-KeepsAt store device_id id d revoked known e = same-KeepsAt id store.devices
approved-KeepsAt store device_id id d _ known e =
    put-KeepsAt id device_id (record d { status = trusted }) store.devices
      (inr (d, known, (refl, λ r. absurd (ground arith))))

approve-KeepsAt :
    (store : TrustStore) (device_id id : String)
    → KeepsAt id store.devices (approve store device_id).0.devices
unfolding approve
approve-KeepsAt store device_id id = elim (Option-cases (lookup device_id store.devices)) [
  | inl new ↦ via id store.devices _ _ (ground arith) (same-KeepsAt id store.devices)
  | inr (d, known) ↦
      via id store.devices _ _ (ground arith)
        (approved-KeepsAt store device_id id d d.status known refl)
]

revoke_as-KeepsAt :
    (now : ℕ) (store : TrustStore) (device_id by id : String) (reason : Option String)
    (d : TrustedDevice) (s : TrustStatus)
    → lookup device_id store.devices ≡ some d
    → KeepsAt id store.devices (revoke_as now store device_id by reason d s).0.devices
unfolding revoke_as
revoke_as-KeepsAt now store device_id by id reason d revoked known = same-KeepsAt id store.devices
revoke_as-KeepsAt now store device_id by id reason d _ known =
    put-KeepsAt id device_id
      (record d {
        status = revoked;
        revoked_by = some by;
        revoked_at = some now;
        revoke_reason = reason;
      })
      store.devices (inr (d, known, (refl, λ _. refl)))

revoke-KeepsAt :
    (now : ℕ) (store : TrustStore) (device_id by id : String) (reason : Option String)
    → KeepsAt id store.devices (revoke_device now store device_id by reason).0.devices
unfolding revoke_device
revoke-KeepsAt now store device_id by id reason =
    elim (Option-cases (lookup device_id store.devices)) [
      | inl new ↦ via id store.devices _ _ (ground arith) (same-KeepsAt id store.devices)
      | inr (d, known) ↦
          via id store.devices _ _ (ground arith)
            (revoke_as-KeepsAt now store device_id by id reason d d.status known)
    ]

pub status-cases : (s : TrustStatus) → (s ≡ pending) ⊎ (s ≡ trusted) ⊎ (s ≡ revoked)
status-cases pending = inl refl
status-cases trusted = inr (inl refl)
status-cases revoked = inr (inr refl)

promote-KeepsAt :
    (now : ℕ) (store : TrustStore) (cert : TransitionCertificate) (name id : String)
    → KeepsAt id store.devices
        (promote now store cert name (lookup cert.new_device_id store.devices)).devices
unfolding promote
promote-KeepsAt now store cert name id =
    elim (Option-cases (lookup cert.new_device_id store.devices)) [
      | inl new ↦ via id store.devices _ _ (ground arith) (
          put-KeepsAt id cert.new_device_id
            (first_record now cert.new_device_id cert.new_public_key name trusted) store.devices
            (inl new))
      | inr (d, known) ↦ elim (status-cases d.status) [
        | inl waits ↦ via id store.devices _ _ (ground arith) (
            put-KeepsAt id cert.new_device_id (record d { status = trusted; last_seen = now })
              store.devices (inr (d, known, (refl, λ r. absurd (ground arith)))))
        | inr (inl is_trusted) ↦
            via id store.devices _ _ (ground arith) (same-KeepsAt id store.devices)
        | inr (inr gone) ↦ via id store.devices _ _ (ground arith) (same-KeepsAt id store.devices)
      ]
    ]

carry-KeepsAt :
    (now : ℕ) (store : TrustStore) (cert : TransitionCertificate) (old : Option TrustedDevice)
    (id : String)
    → KeepsAt id store.devices (carry now store cert old).devices
unfolding carry
carry-KeepsAt now store cert none id = same-KeepsAt id store.devices
carry-KeepsAt now store cert (some old) id = elim (status-cases old.status) [
  | inl waits ↦ via id store.devices _ _ (ground arith) (same-KeepsAt id store.devices)
  | inr (inl is_trusted) ↦
      via id store.devices _ _ (ground arith) (promote-KeepsAt now store cert old.name id)
  | inr (inr gone) ↦ via id store.devices _ _ (ground arith) (same-KeepsAt id store.devices)
]

-- The operations that write to the store, each at its time.
pub data Operation : Type 0 where
  seen : ℕ → String → String → String → Operation
  touched : ℕ → String → Operation
  approval : String → Operation
  revocation : ℕ → String → String → Option String → Operation
  rotation : ℕ → TransitionCertificate → Operation

module _ (verify : TransitionCertificate → Bool) where
  rotation-KeepsAt :
      (now : ℕ) (store : TrustStore) (cert : TransitionCertificate) (id : String)
      → KeepsAt id store.devices (record_rotation verify now store cert).0.devices
  unfolding record_rotation
  rotation-KeepsAt now store cert id = elim (Bool-cases (verify cert)) [
    | inr forged ↦ via id store.devices _ _ (ground arith) (same-KeepsAt id store.devices)
    | inl signed ↦ elim (Bool-cases (is_revoked_row (lookup cert.old_device_id store.devices))) [
      | inl gone ↦ via id store.devices _ _ (ground arith) (same-KeepsAt id store.devices)
      | inr stands ↦ via id store.devices _ _ (ground arith) (
          carry-KeepsAt now
            (record store { transitions = replace_transition cert store.transitions }) cert
            (lookup cert.old_device_id store.devices) id)
    ]
  ]

  -- The store after an operation; what it raises is left to the caller.
  unfoldable pub perform : TrustStore → Operation → TrustStore
  perform store (seen now id key name) = (record_first_seen now store id key name).0
  perform store (touched now id) = touch_last_seen now store id
  perform store (approval id) = (approve store id).0
  perform store (revocation now id by reason) = (revoke_device now store id by reason).0
  perform store (rotation now cert) = (record_rotation verify now store cert).0

  unfoldable pub perform_all : TrustStore → List Operation → TrustStore
  perform_all store [] = store
  perform_all store (o ∷ os) = perform_all (perform store o) os

  perform-KeepsAt :
      (store : TrustStore) (o : Operation) (id : String)
      → KeepsAt id store.devices (perform store o).devices
  unfolding perform
  perform-KeepsAt store (seen now d key name) id = first_seen-KeepsAt now store d key name id
  perform-KeepsAt store (touched now d) id = touch-KeepsAt now store d id
  perform-KeepsAt store (approval d) id = approve-KeepsAt store d id
  perform-KeepsAt store (revocation now d by reason) id = revoke-KeepsAt now store d by id reason
  perform-KeepsAt store (rotation now cert) id = rotation-KeepsAt now store cert id

  -- Whatever operations follow, a device that is stored stays stored with the same key, and once it
  -- is revoked it stays revoked.
  pub perform_all-KeepsAt :
      (store : TrustStore) (os : List Operation) (id : String)
      → KeepsAt id store.devices (perform_all store os).devices
  unfolding perform_all
  perform_all-KeepsAt store [] id d h = (d, h, (refl, λ r. r))
  perform_all-KeepsAt store (o ∷ os) id d h =
      let (e, there, (key, lasts)) = perform-KeepsAt store o id d h in
      let (f, found, (same, still)) = perform_all-KeepsAt (perform store o) os id e there in
      (f, found, (same ∙ key, λ r. still (lasts r)))

  -- Once a device is revoked, no operations make `check` answer TRUSTED or PENDING for it: it answers
  -- REVOKED for the key that was stored, and KEY_CHANGED for every other key.
  pub revoked_for_good :
      (store : TrustStore) (os : List Operation) (id key : String) (d : TrustedDevice)
      → lookup id store.devices ≡ some d
      → d.status ≡ revoked
      → (check (perform_all store os) id key).1
        ≡ (if str_eq d.public_key key then revoked else key_changed)
  unfolding check
  revoked_for_good store os id key d h gone =
      let (e, found, (same, still)) = perform_all-KeepsAt store os id d h in
      let out = still gone in ground arith
