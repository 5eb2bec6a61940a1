-- ===== src/Group/Policy/Trust.antt =====
-- `check_external_trust` of core/group/policy.py: whom a device may trust.
use peerc.Common.{
  ◌≡◌, refl, sym, ◌∙◌, ◌↔◌, ◌⊎◌, inl, inr, ℕ, ◌≤◌, List, [], ◌∷◌, All, true, false, ◌&&◌, not, none,
  some, String, str_eq, eq_iff, arith, Bool-cases, Option-cases,
}
use peerc.Common.Dicts.{lookup}
use peerc.Group.Policy.{
  GroupPolicy, Group, Membership, GroupStore, external_trust_denied, pass, denied,
  is_membership_expired, get_membership, is_member, restricts_trust, trust_loop,
  check_external_trust,
}
use peerc.Group.Policy.Clean.{Clean}

-- A certificate that is active and has no date, or one that is not past.
abbrev pub InForce : ℕ → Membership → Type 0
InForce now cert =
    (cert.is_active ≡ true)
    × ((cert.expires_at ≡ none) ⊎ ((t : ℕ) × (cert.expires_at ≡ some t) × (now ≤ t)))

-- The device founded the group or has a membership in force.
abbrev pub Belongs : ℕ → GroupStore → Group → String → Type 0
Belongs now store group device_id =
    (device_id ≡ group.admin_device_id)
    ⊎ ((cert : Membership) × (get_membership store group.group_id device_id ≡ some cert)
        × InForce now cert)

-- No policy of the group forbids it, or the device belongs to the group.
abbrev pub MayTrust : ℕ → GroupStore → String → Group → Type 0
MayTrust now store device_id group =
    ((p : GroupPolicy)
      → lookup group.group_id store.policies ≡ some p
      → p.allow_external_trust ≡ true)
    ⊎ Belongs now store group device_id

in_force :
    (now : ℕ) (cert : Membership)
    → ((cert.is_active && not (is_membership_expired now cert)) ≡ true) ↔ InForce now cert
unfolding is_membership_expired
in_force now cert = elim (Option-cases cert.expires_at) [
  | inl never ↦ (λ h. (ground arith, inl never), λ h. let active = h.0 in ground arith)
  | inr (t, dated) ↦ (
    λ h. (ground arith, inr (t, dated, ground arith)),
    λ h. elim h.1 [
      | inl never ↦ absurd (ground arith)
      | inr (u, also, fits) ↦ let active = h.0 in let same : t ≡ u = ground arith in ground arith
    ],
  )
]

is_member-Belongs :
    (now : ℕ) (store : GroupStore) (group : Group) (device_id : String)
    → (is_member now store group device_id ≡ true) ↔ Belongs now store group device_id
unfolding is_member
is_member-Belongs now store group device_id =
    elim (Bool-cases (str_eq device_id group.admin_device_id)) [
      | inl founder ↦
          (λ _. inl (ground (arith, eq_iff device_id group.admin_device_id)), λ _. ground arith)
      | inr other ↦ elim (Option-cases (get_membership store group.group_id device_id)) [
        | inl outsider ↦ (
          λ h. absurd (ground arith),
          λ h. elim h [
            | inl founder ↦ absurd (ground (arith, eq_iff device_id group.admin_device_id))
            | inr (cert, found, _) ↦ absurd (ground arith)
          ],
        )
        | inr (cert, found) ↦
            let step : is_member now store group device_id
                ≡ (cert.is_active && not (is_membership_expired now cert)) =
              rw (other, found) refl in
            let (on, off) = in_force now cert in
            (
              λ h. inr (cert, found, on (sym step ∙ h)),
              λ h. elim h [
                | inl founder ↦ absurd (ground (arith, eq_iff device_id group.admin_device_id))
                | inr (also, g, force) ↦
                    let same : also ≡ cert = ground arith in step ∙ off (rw (sym same) force)
              ],
            )
      ]
    ]

restricts_trust_iff :
    (store : GroupStore) (group : Group)
    → (restricts_trust store group ≡ false) ↔ (
        (p : GroupPolicy)
        → lookup group.group_id store.policies ≡ some p
        → p.allow_external_trust ≡ true)
unfolding restricts_trust
restricts_trust_iff store group = elim (Option-cases (lookup group.group_id store.policies)) [
  | inl free ↦ (λ _ p h. absurd (ground arith), λ _. ground arith)
  | inr (p, found) ↦ (
    λ h q g. let same : p ≡ q = ground arith in rw (sym same) (ground arith),
    λ h. let allows = h p found in ground arith,
  )
]

trust_loop-passes :
    (now : ℕ) (store : GroupStore) (device_id : String) (groups : List Group)
    → Clean (trust_loop now store device_id groups)
      × ((trust_loop now store device_id groups ≡ pass) ↔ All (MayTrust now store device_id) groups)
unfolding trust_loop
trust_loop-passes now store device_id [] = (inl refl, (λ _. tt, λ _. refl))
trust_loop-passes now store device_id (group ∷ groups) =
    let (clean, (on, off)) = trust_loop-passes now store device_id groups in
    let (free, unfree) = restricts_trust_iff store group in
    let (member, unmember) = is_member-Belongs now store group device_id in
    elim (Bool-cases (restricts_trust store group)) [
      | inr unrestricted ↦
          let step : trust_loop now store device_id (group ∷ groups)
              ≡ trust_loop now store device_id groups =
            rw (unrestricted) refl in
          (
            rw (step) clean,
            (λ h. (inl (free unrestricted), on (sym step ∙ h)), λ h. step ∙ off h.1),
          )
      | inl restricted ↦ elim (Bool-cases (is_member now store group device_id)) [
        | inl belongs ↦
            let step : trust_loop now store device_id (group ∷ groups)
                ≡ trust_loop now store device_id groups =
              rw (restricted, belongs) refl in
            (rw (step) clean, (λ h. (inr (member belongs), on (sym step ∙ h)), λ h. step ∙ off h.1))
        | inr outsider ↦
            let step : trust_loop now store device_id (group ∷ groups)
                ≡ denied (external_trust_denied device_id group.group_id) =
              rw (restricted, outsider) refl in
            (
              inr (external_trust_denied device_id group.group_id, step),
              (
                λ h. absurd (ground arith),
                λ h. elim h.0 [
                  | inl allows ↦ let no_rule = unfree allows in absurd (ground arith)
                  | inr belongs ↦ let yes_member = unmember belongs in absurd (ground arith)
                ],
              ),
            )
      ]
    ]

-- A device may be trusted exactly when each stored group's policy allows to trust outsiders, or the
-- group has none, or the device founded the group or has an active membership there that is not past
-- its date. A denial emits one event, of the violation that it raises.
pub check_external_trust-MayTrust :
    (now : ℕ) (store : GroupStore) (device_id : String)
    → Clean (check_external_trust now (some store) device_id)
      × ((check_external_trust now (some store) device_id ≡ pass)
          ↔ All (MayTrust now store device_id) store.groups)
unfolding check_external_trust
check_external_trust-MayTrust now store device_id =
    trust_loop-passes now store device_id store.groups
