-- ===== src/Trust/Store/Origins.antt =====
-- Where trust comes from: the operations after which a device is trusted.
use peerc.Common.{
  ◌≡◌, refl, sym, ap, ◌∙◌, ◌⊎◌, inl, inr, ℕ, Bool, true, Option, none, some, String, str_eq, eq_iff,
  arith, Bool-cases, Option-cases, Result-cases,
}
use peerc.Common.Dicts.{Dict, lookup, insert, lookup-insert}
use peerc.Group.Policy.{check_external_trust}
use peerc.Trust.Store.{
  TrustStatus, pending, trusted, revoked, TrustedDevice, TransitionCertificate, TrustStore,
  first_record, record_first_seen, touch_last_seen, approved, approve, revoke_as, revoke_device,
  promote, carry, is_revoked_row, replace_transition, record_rotation,
}
use peerc.Trust.Store.Lasting.{
  status-cases, Operation, seen, touched, approval, revocation, rotation, perform,
}

abbrev pub TrustedIn : Dict TrustedDevice → String → Type 0
TrustedIn devices id = (d : TrustedDevice) × (lookup id devices ≡ some d) × (d.status ≡ trusted)

-- After writing an entry a trusted device was trusted before, or it is that entry.
put_trusted :
    (id k : String) (v : TrustedDevice) (devices : Dict TrustedDevice)
    → TrustedIn (insert k v devices) id
    → TrustedIn devices id ⊎ ((k ≡ id) × (v.status ≡ trusted))
put_trusted id k v devices (e, there, is_trusted) = elim (Bool-cases (str_eq k id)) [
  | inr other ↦ inl (e, ground (arith, lookup-insert k id v devices), is_trusted)
  | inl here ↦
      let same : v ≡ e = ground (arith, lookup-insert k id v devices) in
      inr (ground (arith, eq_iff k id), ap (λ (d : TrustedDevice). d.status) same ∙ is_trusted)
]

named :
    (id : String) (after other : Dict TrustedDevice)
    → after ≡ other
    → TrustedIn after id
    → TrustedIn other id
named id after other e h = rw (sym e) h

first_seen_origin :
    (now : ℕ) (store : TrustStore) (device_id key name id : String)
    → TrustedIn (record_first_seen now store device_id key name).0.devices id
    → TrustedIn store.devices id
unfolding record_first_seen
first_seen_origin now store device_id key name id h =
    elim (Option-cases (lookup device_id store.devices)) [
      | inr (d, known) ↦ named id _ store.devices (ground arith) h
      | inl new ↦ elim (Result-cases (check_external_trust now store.group_store device_id).1) [
        | inl (v, refused) ↦ named id _ store.devices (ground arith) h
        | inr (u, passed) ↦
            let v = first_record now device_id key name pending in
            elim (put_trusted id device_id v store.devices
              (named id _ (insert device_id v store.devices) (ground arith) h)) [
                | inl before ↦ before
                | inr (here, impossible) ↦ absurd (ground arith)
              ]
      ]
    ]

touch_origin :
    (now : ℕ) (store : TrustStore) (device_id id : String)
    → TrustedIn (touch_last_seen now store device_id).devices id
    → TrustedIn store.devices id
unfolding touch_last_seen
touch_origin now store device_id id h = elim (Option-cases (lookup device_id store.devices)) [
  | inl new ↦ named id _ store.devices (ground arith) h
  | inr (d, known) ↦
      let v = record d { last_seen = now } in
      elim (put_trusted id device_id v store.devices
        (named id _ (insert device_id v store.devices) (ground arith) h)) [
          | inl before ↦ before
          | inr (here, was) ↦ (d, ap (λ k. lookup k store.devices) (sym here) ∙ known, was)
        ]
]

approved_origin :
    (store : TrustStore) (device_id id : String) (d : TrustedDevice) (s : TrustStatus)
    → TrustedIn (approved store device_id d s).0.devices id
    → TrustedIn store.devices id ⊎ (device_id ≡ id)
unfolding approved
approved_origin store device_id id d revoked h = inl h
approved_origin store device_id id d _ h =
    elim (put_trusted id device_id (record d { status = trusted }) store.devices h) [
      | inl before ↦ inl before
      | inr (here, _) ↦ inr here
    ]

approve_origin :
    (store : TrustStore) (device_id id : String)
    → TrustedIn (approve store device_id).0.devices id
    → TrustedIn store.devices id ⊎ (device_id ≡ id)
unfolding approve
approve_origin store device_id id h = elim (Option-cases (lookup device_id store.devices)) [
  | inl new ↦ inl (named id _ store.devices (ground arith) h)
  | inr (d, known) ↦
      approved_origin store device_id id d d.status
        (named id _ (approved store device_id d d.status).0.devices (ground arith) h)
]

revoke_as_origin :
    (now : ℕ) (store : TrustStore) (device_id by id : String) (reason : Option String)
    (d : TrustedDevice) (s : TrustStatus)
    → TrustedIn (revoke_as now store device_id by reason d s).0.devices id
    → TrustedIn store.devices id
unfolding revoke_as
revoke_as_origin now store device_id by id reason d revoked h = h
revoke_as_origin now store device_id by id reason d _ h =
    let v = record d {
      status = revoked;
      revoked_by = some by;
      revoked_at = some now;
      revoke_reason = reason;
    } in
    elim (put_trusted id device_id v store.devices h) [
      | inl before ↦ before
      | inr (here, impossible) ↦ absurd (ground arith)
    ]

revoke_origin :
    (now : ℕ) (store : TrustStore) (device_id by id : String) (reason : Option String)
    → TrustedIn (revoke_device now store device_id by reason).0.devices id
    → TrustedIn store.devices id
unfolding revoke_device
revoke_origin now store device_id by id reason h =
    elim (Option-cases (lookup device_id store.devices)) [
      | inl new ↦ named id _ store.devices (ground arith) h
      | inr (d, known) ↦ revoke_as_origin now store device_id by id reason d d.status (
          named id _ (revoke_as now store device_id by reason d d.status).0.devices (ground arith)
            h)
    ]

promote_origin :
    (now : ℕ) (store : TrustStore) (cert : TransitionCertificate) (name id : String)
    → TrustedIn (promote now store cert name (lookup cert.new_device_id store.devices)).devices id
    → TrustedIn store.devices id ⊎ (cert.new_device_id ≡ id)
unfolding promote
promote_origin now store cert name id h =
    let written : (v : TrustedDevice)
        → TrustedIn (insert cert.new_device_id v store.devices) id
        → TrustedIn store.devices id ⊎ (cert.new_device_id ≡ id) =
      λ v g. elim (put_trusted id cert.new_device_id v store.devices g) [
        | inl before ↦ inl before
        | inr (here, _) ↦ inr here
      ] in
    elim (Option-cases (lookup cert.new_device_id store.devices)) [
      | inl new ↦
          written (first_record now cert.new_device_id cert.new_public_key name trusted)
            (named id _ _ (ground arith) h)
      | inr (d, known) ↦ elim (status-cases d.status) [
        | inl waits ↦
            written (record d { status = trusted; last_seen = now }) (named id _ _ (ground arith) h)
        | inr (inl is_trusted) ↦ inl (named id _ store.devices (ground arith) h)
        | inr (inr gone) ↦ inl (named id _ store.devices (ground arith) h)
      ]
    ]

carry_origin :
    (now : ℕ) (store : TrustStore) (cert : TransitionCertificate) (old : Option TrustedDevice)
    (id : String)
    → TrustedIn (carry now store cert old).devices id
    → TrustedIn store.devices id
      ⊎ ((cert.new_device_id ≡ id) × ((d : TrustedDevice) × (old ≡ some d) × (d.status ≡ trusted)))
unfolding carry
carry_origin now store cert none id h = inl h
carry_origin now store cert (some old) id h = elim (status-cases old.status) [
  | inl waits ↦ inl (named id _ store.devices (ground arith) h)
  | inr (inl is_trusted) ↦
      elim (promote_origin now store cert old.name id (named id _ _ (ground arith) h)) [
        | inl before ↦ inl before
        | inr here ↦ inr (here, (old, refl, is_trusted))
      ]
  | inr (inr gone) ↦ inl (named id _ store.devices (ground arith) h)
]

module _ (verify : TransitionCertificate → Bool) where
  -- The operation is a rotation onto the device whose certificate verifies, from a device that is
  -- trusted.
  abbrev pub RotatedFromTrusted : TrustStore → Operation → String → Type 0
  RotatedFromTrusted store o id =
      (now : ℕ) × (cert : TransitionCertificate) × (o ≡ rotation now cert)
      × (verify cert ≡ true)
      × (cert.new_device_id ≡ id)
      × TrustedIn store.devices cert.old_device_id

  rotation_origin :
      (now : ℕ) (store : TrustStore) (cert : TransitionCertificate) (id : String)
      → TrustedIn (record_rotation verify now store cert).0.devices id
      → TrustedIn store.devices id ⊎ RotatedFromTrusted store (rotation now cert) id
  unfolding record_rotation
  rotation_origin now store cert id h = elim (Bool-cases (verify cert)) [
    | inr forged ↦ inl (named id _ store.devices (ground arith) h)
    | inl signed ↦ elim (Bool-cases (is_revoked_row (lookup cert.old_device_id store.devices))) [
      | inl gone ↦ inl (named id _ store.devices (ground arith) h)
      | inr stands ↦
          elim (carry_origin now
            (record store { transitions = replace_transition cert store.transitions }) cert
            (lookup cert.old_device_id store.devices) id (named id _ _ (ground arith) h)) [
              | inl before ↦ inl before
              | inr (here, old) ↦ inr (now, cert, refl, signed, here, old)
            ]
    ]
  ]

  -- A device that is trusted after an operation was trusted before it, or the operation is the user's
  -- approval of it, or a rotation onto it whose certificate verifies, from a device that is trusted.
  pub trust_origin :
      (store : TrustStore) (o : Operation) (id : String)
      → TrustedIn (perform verify store o).devices id
      → TrustedIn store.devices id ⊎ (o ≡ approval id) ⊎ RotatedFromTrusted store o id
  unfolding perform
  trust_origin store (seen now d key name) id h = inl (first_seen_origin now store d key name id h)
  trust_origin store (touched now d) id h = inl (touch_origin now store d id h)
  trust_origin store (approval d) id h = elim (approve_origin store d id h) [
    | inl before ↦ inl before
    | inr here ↦ inr (inl (ap approval here))
  ]
  trust_origin store (revocation now d by reason) id h =
      inl (revoke_origin now store d by id reason h)
  trust_origin store (rotation now cert) id h = elim (rotation_origin now store cert id h) [
    | inl before ↦ inl before
    | inr rotated ↦ inr (inr rotated)
  ]
