-- ===== src/Trust/Rotation/Verdict.antt =====
-- What `check_with_rotation` answers.
use mathlib.Core.Path.{subst}
use peerc.Common.{
  ◌≡◌, ◌≢◌, refl, ap, ◌∙◌, sym, ◌⊎◌, inl, inr, List, [], ◌∷◌, ◌++◌, Bool, true, false, Option, none,
  some, String, str_eq, eq_iff, arith, Bool-cases,
}
use peerc.Common.Dicts.{lookup}
use peerc.Trust.Store.{TrustStatus, TrustStore, TrustEvent, TrustDecision, check}
use peerc.Trust.Rotation.{
  mem, status_of, judge_chain, judge_if_any, after_check, get_rotation_chain, check_with_rotation,
}
use peerc.Trust.Rotation.Links.{Connected, In, head-In, tail-In}
use peerc.Trust.Rotation.Component.{not-In_nil, get_rotation_chain-iff-Connected}

-- A device of the list has this status.
abbrev Some : TrustStore → TrustStatus → List String → Type 0
Some store status xs = (x : String) × (In x xs) × (status_of (lookup x store.devices) ≡ some status)

-- A device that rotations connect with this one has this status.
abbrev pub HasKin : TrustStore → TrustStatus → String → Type 0
HasKin store status id =
    (x : String) × Connected store.transitions id x
    × (status_of (lookup x store.devices) ≡ some status)

not_head :
    (store : TrustStore) (status : TrustStatus) (y : String) (ys : List String)
    → Some store status (y ∷ ys)
    → status_of (lookup y store.devices) ≢ some status
    → Some store status ys
unfolding mem
not_head store status y ys (x, within, has) differs = elim (Bool-cases (str_eq y x)) [
  | inl same ↦ absurd (
      differs (ap (λ (k : String). status_of (lookup k store.devices)) ((eq_iff y x).0 same) ∙ has))
  | inr other ↦ (x, ground arith, has)
]

Status-cases :
    (s : Option TrustStatus)
    → (s ≡ some TrustStatus.revoked)
      ⊎ (s ≡ some TrustStatus.trusted)
      ⊎ (s ≡ some TrustStatus.pending)
      ⊎ (s ≡ none)
Status-cases none = inr (inr (inr refl))
Status-cases (some TrustStatus.revoked) = inl refl
Status-cases (some TrustStatus.trusted) = inr (inl refl)
Status-cases (some TrustStatus.pending) = inr (inr (inl refl))

judge_revoked :
    (store : TrustStore) (id : String) (direct : TrustDecision) (seen : Bool) (chain : List String)
    → Some store TrustStatus.revoked chain
    → (judge_chain store id direct seen chain).1 ≡ TrustDecision.revoked
unfolding judge_chain
judge_revoked store id direct seen [] (x, within, has) = absurd (not-In_nil x within)
judge_revoked store id direct seen (y ∷ ys) found =
    elim (Status-cases (status_of (lookup y store.devices))) [
      | inl gone ↦ ground arith
      | inr (inl good) ↦
          let rest =
            judge_revoked store id direct true ys
              (not_head store TrustStatus.revoked y ys found (λ e. ground arith)) in
          ground arith
      | inr (inr (inl waits)) ↦
          let rest =
            judge_revoked store id direct seen ys
              (not_head store TrustStatus.revoked y ys found (λ e. ground arith)) in
          ground arith
      | inr (inr (inr missing)) ↦
          let rest =
            judge_revoked store id direct seen ys
              (not_head store TrustStatus.revoked y ys found (λ e. ground arith)) in
          ground arith
    ]

-- Without a revoked device, the answer is TRUSTED as soon as one was seen.
judge_seen :
    (store : TrustStore) (id : String) (direct : TrustDecision) (chain : List String)
    → (Some store TrustStatus.revoked chain → ⊥)
    → (judge_chain store id direct true chain).1 ≡ TrustDecision.trusted
unfolding judge_chain
judge_seen store id direct [] clean = refl
judge_seen store id direct (y ∷ ys) clean =
    elim (Status-cases (status_of (lookup y store.devices))) [
      | inl gone ↦ absurd (clean (y, head-In y ys, gone))
      | inr (inl good) ↦
          let rest = judge_seen store id direct ys (λ (x, w, h). clean (x, tail-In x y ys w, h)) in
          ground arith
      | inr (inr (inl waits)) ↦
          let rest = judge_seen store id direct ys (λ (x, w, h). clean (x, tail-In x y ys w, h)) in
          ground arith
      | inr (inr (inr missing)) ↦
          let rest = judge_seen store id direct ys (λ (x, w, h). clean (x, tail-In x y ys w, h)) in
          ground arith
    ]

judge_trusted :
    (store : TrustStore) (id : String) (direct : TrustDecision) (chain : List String)
    → (Some store TrustStatus.revoked chain → ⊥)
    → (Some store TrustStatus.trusted chain
        → (judge_chain store id direct false chain).1 ≡ TrustDecision.trusted)
      × ((Some store TrustStatus.trusted chain → ⊥)
          → (judge_chain store id direct false chain).1 ≡ direct)
unfolding judge_chain
judge_trusted store id direct [] clean =
    (λ (x, within, has). absurd (not-In_nil x within), λ none_trusted. refl)
judge_trusted store id direct (y ∷ ys) clean =
    let clean_rest =
      λ (s : Some store TrustStatus.revoked ys). clean (s.0, tail-In s.0 y ys s.1, s.2) in
    let (found, unfound) = judge_trusted store id direct ys clean_rest in
    elim (Status-cases (status_of (lookup y store.devices))) [
      | inl gone ↦ absurd (clean (y, head-In y ys, gone))
      | inr (inl good) ↦
          let rest = judge_seen store id direct ys clean_rest in
          (λ s. ground arith, λ none_trusted. absurd (none_trusted (y, head-In y ys, good)))
      | inr (inr (inl waits)) ↦ (
        λ s.
            let rest = found (not_head store TrustStatus.trusted y ys s (λ e. ground arith)) in
            ground arith,
        λ none_trusted.
            let rest = unfound (λ t. none_trusted (t.0, tail-In t.0 y ys t.1, t.2)) in ground arith,
      )
      | inr (inr (inr missing)) ↦ (
        λ s.
            let rest = found (not_head store TrustStatus.trusted y ys s (λ e. ground arith)) in
            ground arith,
        λ none_trusted.
            let rest = unfound (λ t. none_trusted (t.0, tail-In t.0 y ys t.1, t.2)) in ground arith,
      )
    ]

-- A chain that has exactly the connected devices.
abbrev Chain : TrustStore → String → List String → Type 0
Chain store id chain =
    (x : String)
    → (In x chain → Connected store.transitions id x)
      × (Connected store.transitions id x → In x chain)

kin-Some :
    (store : TrustStore) (id : String) (chain : List String) (status : TrustStatus)
    → Chain store id chain
    → (Some store status chain → HasKin store status id)
      × (HasKin store status id → Some store status chain)
kin-Some store id chain status all =
    (λ (x, within, has). (x, (all x).0 within, has), λ (x, linked, has). (x, (all x).1 linked, has))

same_status : (o : Option TrustStatus) (s : TrustStatus) → (o ≡ some s) ⊎ (o ≢ some s)
same_status none s = inr (λ e. ground arith)
same_status (some TrustStatus.pending) TrustStatus.pending = inl refl
same_status (some TrustStatus.pending) s = inr (λ e. ground arith)
same_status (some TrustStatus.trusted) TrustStatus.trusted = inl refl
same_status (some TrustStatus.trusted) s = inr (λ e. ground arith)
same_status (some TrustStatus.revoked) TrustStatus.revoked = inl refl
same_status (some TrustStatus.revoked) s = inr (λ e. ground arith)

Some-cases :
    (store : TrustStore) (status : TrustStatus) (chain : List String)
    → Some store status chain ⊎ (Some store status chain → ⊥)
Some-cases store status [] = inr (λ (x, within, has). absurd (not-In_nil x within))
Some-cases store status (y ∷ ys) = elim (same_status (status_of (lookup y store.devices)) status) [
  | inl has ↦ inl (y, head-In y ys, has)
  | inr other ↦ elim (Some-cases store status ys) [
    | inl (x, within, has) ↦ inl (x, tail-In x y ys within, has)
    | inr none_has ↦ inr (λ s. none_has (not_head store status y ys s other))
  ]
]

-- The verdict for a device, from what `check` says of it: a changed key first, then a revoked
-- device among the connected ones, then a trusted one.
pub data Verdict (store : TrustStore) (id : String) : TrustDecision → TrustDecision → Type 0 where
  changed : Verdict store id TrustDecision.key_changed TrustDecision.key_changed
  tainted :
      (direct : TrustDecision)
      → direct ≢ TrustDecision.key_changed
      → HasKin store TrustStatus.revoked id
      → Verdict store id direct TrustDecision.revoked
  vouched :
      (direct : TrustDecision)
      → direct ≢ TrustDecision.key_changed
      → (HasKin store TrustStatus.revoked id → ⊥)
      → HasKin store TrustStatus.trusted id
      → Verdict store id direct TrustDecision.trusted
  as_checked :
      (direct : TrustDecision)
      → direct ≢ TrustDecision.key_changed
      → (HasKin store TrustStatus.revoked id → ⊥)
      → (HasKin store TrustStatus.trusted id → ⊥)
      → Verdict store id direct direct

judge-Verdict :
    (store : TrustStore) (id : String) (direct : TrustDecision) (chain : List String)
    → direct ≢ TrustDecision.key_changed
    → Chain store id chain
    → Verdict store id direct (judge_chain store id direct false chain).1
judge-Verdict store id direct chain other all =
    let (to_gone, of_gone) = kin-Some store id chain TrustStatus.revoked all in
    let (to_good, of_good) = kin-Some store id chain TrustStatus.trusted all in
    elim (Some-cases store TrustStatus.revoked chain) [
      | inl gone ↦
          subst (Verdict store id direct) (sym (judge_revoked store id direct false chain gone))
            (tainted direct other (to_gone gone))
      | inr clean ↦
          let (trusting, otherwise) = judge_trusted store id direct chain clean in
          elim (Some-cases store TrustStatus.trusted chain) [
            | inl good ↦
                subst (Verdict store id direct) (sym (trusting good))
                  (vouched direct other (λ k. clean (of_gone k)) (to_good good))
            | inr none_good ↦
                subst (Verdict store id direct) (sym (otherwise none_good))
                  (as_checked direct other (λ k. clean (of_gone k)) (λ k. none_good (of_good k)))
          ]
    ]

after_check-judged :
    (store : TrustStore) (id : String) (events : List TrustEvent) (direct : TrustDecision)
    (chain : List String)
    → get_rotation_chain store id ≡ some chain
    → direct ≢ TrustDecision.key_changed
    → (more : List TrustEvent) × (after_check store id (events, direct)
        ≡ some (more, (judge_chain store id direct false chain).1))
unfolding after_check judge_if_any
after_check-judged store id events TrustDecision.key_changed chain found other = absurd (other refl)
after_check-judged store id events direct chain found other =
    (events ++ (judge_chain store id direct false chain).0, rw (found, after_check) refl)

key_changed-cases :
    (d : TrustDecision) → (d ≡ TrustDecision.key_changed) ⊎ (d ≢ TrustDecision.key_changed)
key_changed-cases TrustDecision.key_changed = inl refl
key_changed-cases d = inr (λ e. ground arith)

after_check-changed :
    (store : TrustStore) (id : String) (events : List TrustEvent)
    → after_check store id (events, TrustDecision.key_changed)
      ≡ some (events, TrustDecision.key_changed)
unfolding after_check
after_check-changed store id events = refl

verdict :
    (store : TrustStore) (id : String) (seen : List TrustEvent) (direct : TrustDecision)
    → (events : List TrustEvent) × (decision : TrustDecision) × (after_check store id (seen, direct)
        ≡ some (events, decision))
      × Verdict store id direct decision
verdict store id seen direct = elim (key_changed-cases direct) [
  | inl is_changed ↦ (
    seen,
    TrustDecision.key_changed,
    ap (λ (d : TrustDecision). after_check store id (seen, d)) is_changed
        ∙ after_check-changed store id seen,
    subst (λ (d : TrustDecision). Verdict store id d TrustDecision.key_changed) (sym is_changed)
        changed,
  )
  | inr other ↦
      let (chain, found, all) = get_rotation_chain-iff-Connected store id in
      let (more, answers) = after_check-judged store id seen direct chain found other in
      (
        more,
        (judge_chain store id direct false chain).1,
        answers,
        judge-Verdict store id direct chain other all,
      )
]

-- `check_with_rotation` always answers. It answers KEY_CHANGED where `check` does. Otherwise it
-- answers REVOKED when a device that rotations connect with this one, one from which or to which
-- it has moved, is revoked, else TRUSTED when one of them is trusted, and else what `check` answers.
pub check_with_rotation-Verdict :
    (store : TrustStore) (id key : String)
    → (events : List TrustEvent) × (decision : TrustDecision) × (check_with_rotation store id key
        ≡ some (events, decision))
      × Verdict store id (check store id key).1 decision
unfolding check_with_rotation
check_with_rotation-Verdict store id key =
    verdict store id (check store id key).0 (check store id key).1

trusted_if_vouched :
    (store : TrustStore) (id : String) (direct decision : TrustDecision)
    → Verdict store id direct decision
    → direct ≢ TrustDecision.key_changed
    → HasKin store TrustStatus.trusted id
    → (HasKin store TrustStatus.revoked id → ⊥)
    → decision ≡ TrustDecision.trusted
trusted_if_vouched store id _ _ changed other kin clean = absurd (other refl)
trusted_if_vouched store id _ _ (tainted direct _ gone) other kin clean = absurd (clean gone)
trusted_if_vouched store id _ _ (vouched direct _ _ _) other kin clean = refl
trusted_if_vouched store id _ _ (as_checked direct _ _ no_kin) other kin clean = absurd (no_kin kin)

-- For a device id without a row of its own, which rotations connect with a trusted device and with no
-- revoked one, the answer is TRUSTED whatever public key is shown.
pub unknown_id_trusted_for_any_key :
    (store : TrustStore) (id key : String)
    → lookup id store.devices ≡ none
    → HasKin store TrustStatus.trusted id
    → (HasKin store TrustStatus.revoked id → ⊥)
    → (events : List TrustEvent) × (check_with_rotation store id key
        ≡ some (events, TrustDecision.trusted))
unfolding check
unknown_id_trusted_for_any_key store id key unknown_id kin clean =
    let (events, decision, answers, rule) = check_with_rotation-Verdict store id key in
    let is_trusted : decision ≡ TrustDecision.trusted =
      trusted_if_vouched store id (check store id key).1 decision rule (λ e. ground arith) kin
        clean in
    (events, answers ∙ ap (λ (d : TrustDecision). some (events, d)) is_trusted)
