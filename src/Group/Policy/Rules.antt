-- ===== src/Group/Policy/Rules.antt =====
-- `CommunicationRule.matches` of core/group/policy.py in the words of a rule.
use peerc.Common.{
  eq_iff, Bool, ◌&&◌, ◌||◌, ◌≡◌, refl, ap, ◌∙◌, ◌↔◌, ◌⊎◌, inl, inr, true, false, Option, none, some,
  String, str_eq, arith,
}
use peerc.Group.Policy.{CommunicationRule, Attempt, matches, named_by}

module _ (lower : String → String) where
  -- A text is there and the rule's word means it.
  abbrev pub Means : String → Option String → Type 0
  Means word name = (n : String) × (name ≡ some n) × (lower word ≡ lower n)

  -- The rule's word means a device, by its id, its role or its group, or is the wildcard.
  abbrev pub Covers : String → String → Option String → Option String → Type 0
  Covers word device_id role group_id =
      (((lower word ≡ "*") ⊎ (lower word ≡ lower device_id)) ⊎ Means word role)
      ⊎ Means word group_id

  -- The rule is about the attempt: about its action, its source and its destination.
  abbrev pub Matches : CommunicationRule → Attempt → Type 0
  Matches rule a =
      ((rule.action ≡ "*") ⊎ (lower rule.action ≡ lower a.action))
      × Covers rule.source a.source_device_id a.source_role a.source_group_id
      × Covers rule.destination a.dest_device_id a.dest_role a.dest_group_id

  named_by-iff-Means :
      (word : String) (name : Option String) → (named_by lower word name ≡ true) ↔ Means word name
  unfolding named_by
  named_by-iff-Means word none = (λ h. absurd (ground arith), λ (n, h, _). absurd (ground arith))
  named_by-iff-Means word (some name) =
      let (there, back) = eq_iff (lower word) (lower name) in
      (
        λ h. (name, refl, there h),
        λ (n, same, h). let e : n ≡ name = ground arith in back (h ∙ ap lower e),
      )

  either_iff :
      {P Q : Type 0} (x y : Bool) → (x ≡ true) ↔ P → (y ≡ true) ↔ Q → ((x || y) ≡ true) ↔ (P ⊎ Q)
  either_iff true y (p, p') (q, q') = (λ _. inl (p refl), λ _. refl)
  either_iff false y (p, p') (q, q') =
      (λ h. inr (q h), λ h. elim h [ inl x ↦ absurd (ground (arith, p' x)) | inr x ↦ q' x ])

  both_iff :
      {P Q : Type 0} (x y : Bool) → (x ≡ true) ↔ P → (y ≡ true) ↔ Q → ((x && y) ≡ true) ↔ (P × Q)
  both_iff true y (p, p') (q, q') = (λ h. (p refl, q h), λ h. q' h.1)
  both_iff false y (p, p') (q, q') =
      (λ h. absurd (ground arith), λ h. absurd (ground (arith, p' h.0)))

  named_by-iff-Covers :
      (word device_id : String) (role group_id : Option String)
      → ((str_eq (lower word) "*"
            || str_eq (lower word) (lower device_id)
            || named_by lower word role
            || named_by lower word group_id)
          ≡ true)
        ↔ Covers word device_id role group_id
  named_by-iff-Covers word device_id role group_id =
      either_iff _ _
        (either_iff _ _
          (either_iff _ _ (eq_iff (lower word) "*") (eq_iff (lower word) (lower device_id)))
          (named_by-iff-Means word role))
        (named_by-iff-Means word group_id)

  pub matches-iff-Matches :
      (rule : CommunicationRule) (a : Attempt) → (matches lower rule a ≡ true) ↔ Matches rule a
  unfolding matches
  matches-iff-Matches rule a =
      let (there, back) =
        both_iff _ _
          (both_iff _ _
            (either_iff _ _ (eq_iff rule.action "*") (eq_iff (lower rule.action) (lower a.action)))
            (named_by-iff-Covers rule.source a.source_device_id a.source_role a.source_group_id))
          (named_by-iff-Covers rule.destination a.dest_device_id a.dest_role a.dest_group_id) in
      (
        λ h. let ((action, source), destination) = there h in (action, source, destination),
        λ (action, source, destination). back ((action, source), destination),
      )

  pub unmatched :
      (rule : CommunicationRule) (a : Attempt) → matches lower rule a ≡ false → ¬ Matches rule a
  unmatched rule a other hit = let found = (matches-iff-Matches rule a).1 hit in ground arith
