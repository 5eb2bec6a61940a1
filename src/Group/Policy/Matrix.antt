-- ===== src/Group/Policy/Matrix.antt =====
-- What the matrices of the policies that are read decide, core/group/policy.py.
use mathlib.Core.Path.{subst}
use peerc.Common.{
  ◌≡◌, refl, sym, ap, ◌∙◌, ◌↔◌, ◌⊎◌, inl, inr, List, [], ◌∷◌, ◌++◌, All, String, arith, Bool-cases,
}
use peerc.Group.Policy.{
  PolicyEffect, allow, deny, CommunicationRule, GroupPolicy, Attempt, rule_denied, default_denied,
  pass, matches, matrix_loop, policies_loop,
}
use peerc.Group.Policy.Clean.{Clean, and_then-Clean, and_then-passes}
use peerc.Group.Policy.Rules.{Matches, matches-iff-Matches, unmatched}

effect-cases : (e : PolicyEffect) → (e ≡ allow) ⊎ (e ≡ deny)
effect-cases allow = inl refl
effect-cases deny = inr refl

module _ (lower : String → String) where
  matrix_loop-Clean :
      (policy : GroupPolicy) (a : Attempt) (rules : List CommunicationRule)
      → Clean (matrix_loop lower policy a rules)
  unfolding matrix_loop
  matrix_loop-Clean policy a [] = elim (effect-cases policy.default_communication_effect) [
    | inl permitted ↦ inl (ground arith)
    | inr shut ↦ inr (default_denied policy.group_id, ground arith)
  ]
  matrix_loop-Clean policy a (rule ∷ rules) = elim (Bool-cases (matches lower rule a)) [
    | inr other ↦ rw (other) (matrix_loop-Clean policy a rules)
    | inl decides ↦ elim (effect-cases rule.effect) [
      | inl permitted ↦ inl (ground arith)
      | inr shut ↦ inr (rule_denied policy.group_id rule, ground arith)
    ]
  ]

  -- No rule of a list matches.
  abbrev pub NoneMatches : Attempt → List CommunicationRule → Type 0
  NoneMatches a rules = All (λ (r : CommunicationRule). ¬ Matches lower r a) rules

  -- The first rule that matches allows the attempt, or none matches and the default allows it.
  abbrev pub Permits : Attempt → PolicyEffect → List CommunicationRule → Type 0
  Permits a default rules =
      ((before : List CommunicationRule) × (rule : CommunicationRule) × (after : List
          CommunicationRule)
        × (rules ≡ before ++ rule ∷ after)
        × NoneMatches a before
        × Matches lower rule a
        × (rule.effect ≡ allow))
      ⊎ (NoneMatches a rules × (default ≡ allow))

  head_decides :
      (a : Attempt) (rule : CommunicationRule) (rules before : List CommunicationRule)
      (decisive : CommunicationRule) (after : List CommunicationRule)
      → rule ∷ rules ≡ before ++ decisive ∷ after
      → NoneMatches a before
      → Matches lower rule a
      → decisive.effect ≡ allow
      → rule.effect ≡ allow
  head_decides a rule rules [] decisive after split none_before hit opens =
      let same : rule ≡ decisive = ground arith in rw (same) opens
  head_decides a rule rules (b ∷ before) decisive after split none_before hit opens =
      let same : rule ≡ b = ground arith in
      absurd (none_before.0 (subst (λ r. Matches lower r a) same hit))

  tail_decides :
      (a : Attempt) (default : PolicyEffect) (rule : CommunicationRule)
      (rules before : List CommunicationRule) (decisive : CommunicationRule)
      (after : List CommunicationRule)
      → rule ∷ rules ≡ before ++ decisive ∷ after
      → NoneMatches a before
      → Matches lower decisive a
      → decisive.effect ≡ allow
      → ¬ Matches lower rule a
      → Permits a default rules
  tail_decides a default rule rules [] decisive after split none_before hit opens other =
      let same : rule ≡ decisive = ground arith in
      absurd (other (subst (λ r. Matches lower r a) (sym same) hit))
  tail_decides a default rule rules (b ∷ before) decisive after split none_before hit opens other =
      inl (before, decisive, after, ground arith, none_before.1, hit, opens)

  -- A rule in front that does not match decides nothing.
  Permits-skip :
      (a : Attempt) (default : PolicyEffect) (rule : CommunicationRule)
      (rules : List CommunicationRule)
      → ¬ Matches lower rule a
      → Permits a default rules ↔ Permits a default (rule ∷ rules)
  Permits-skip a default rule rules other = (
    λ h. elim h [
      | inl (before, decisive, after, split, none_before, hit, opens) ↦ inl (
        rule ∷ before,
        decisive,
        after,
        ap (λ l. rule ∷ l) split,
        (other, none_before),
        hit,
        opens,
      )
      | inr (none_hit, opens) ↦ inr ((other, none_hit), opens)
    ],
    λ h. elim h [
      | inl (before, decisive, after, split, none_before, hit, opens) ↦
          tail_decides a default rule rules before decisive after split none_before hit opens other
      | inr (none_hit, opens) ↦ inr (none_hit.1, opens)
    ],
  )

  no_first :
      (before : List CommunicationRule) (decisive : CommunicationRule)
      (after : List CommunicationRule)
      → [] ≡ before ++ decisive ∷ after
      → ⊥
  no_first [] decisive after h = ground arith
  no_first (b ∷ before) decisive after h = ground arith

  Permits-nil : (a : Attempt) (default : PolicyEffect) → Permits a default [] → default ≡ allow
  Permits-nil a default (inl (before, decisive, after, split, _, _, _)) =
      absurd (no_first before decisive after split)
  Permits-nil a default (inr (_, opens)) = opens

  Permits-head :
      (a : Attempt) (default : PolicyEffect) (rule : CommunicationRule)
      (rules : List CommunicationRule)
      → Matches lower rule a
      → Permits a default (rule ∷ rules)
      → rule.effect ≡ allow
  Permits-head a default rule rules hit
        (inl (before, decisive, after, split, none_before, _, opens)) =
      head_decides a rule rules before decisive after split none_before hit opens
  Permits-head a default rule rules hit (inr (none_hit, _)) = absurd (none_hit.0 hit)

  -- The loop passes exactly when the first rule that matches, or the default, permits the attempt.
  pub matrix_loop-Permits :
      (policy : GroupPolicy) (a : Attempt) (rules : List CommunicationRule)
      → (matrix_loop lower policy a rules ≡ pass)
        ↔ Permits a policy.default_communication_effect rules
  unfolding matrix_loop
  matrix_loop-Permits policy a [] = elim (effect-cases policy.default_communication_effect) [
    | inl permitted ↦ (λ _. inr (tt, permitted), λ _. ground arith)
    | inr shut ↦ (
      λ h. absurd (ground arith),
      λ h. let opens = Permits-nil a policy.default_communication_effect h in absurd (ground arith),
    )
  ]
  matrix_loop-Permits policy a (rule ∷ rules) = elim (Bool-cases (matches lower rule a)) [
    | inr other ↦
        let (there, back) = matrix_loop-Permits policy a rules in
        let (skip, unskip) =
          Permits-skip a policy.default_communication_effect rule rules
            (unmatched lower rule a other) in
        let step : matrix_loop lower policy a (rule ∷ rules) ≡ matrix_loop lower policy a rules =
          rw (other) refl in
        (λ h. skip (there (sym step ∙ h)), λ h. step ∙ back (unskip h))
    | inl decides ↦ elim (effect-cases rule.effect) [
      | inl permitted ↦ (
        λ _.
            inl
              ([], rule, rules, refl, tt, (matches-iff-Matches lower rule a).0 decides, permitted),
        λ _. ground arith,
      )
      | inr shut ↦ (
        λ h. absurd (ground arith),
        λ h.
            let opens =
              Permits-head a policy.default_communication_effect rule rules
                ((matches-iff-Matches lower rule a).0 decides) h in
            absurd (ground arith),
      )
    ]
  ]

  pub policies_loop-passes :
      (a : Attempt) (policies : List GroupPolicy)
      → Clean (policies_loop lower a policies)
        × ((policies_loop lower a policies ≡ pass)
            ↔ All
                (λ (p : GroupPolicy).
                  Permits a p.default_communication_effect p.communication_matrix)
                policies)
  unfolding policies_loop
  policies_loop-passes a [] = (inl refl, (λ _. tt, λ _. refl))
  policies_loop-passes a (policy ∷ policies) =
      let first = matrix_loop lower policy a policy.communication_matrix in
      let clean = matrix_loop-Clean policy a policy.communication_matrix in
      let (there, back) = matrix_loop-Permits policy a policy.communication_matrix in
      let (rest_clean, (on, off)) = policies_loop-passes a policies in
      let (split, join) = and_then-passes first (policies_loop lower a policies) clean in
      (
        and_then-Clean first (policies_loop lower a policies) clean rest_clean,
        (λ h. (there (split h).0, on (split h).1), λ h. join (back h.0, off h.1)),
      )
