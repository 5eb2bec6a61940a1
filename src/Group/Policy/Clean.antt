-- ===== src/Group/Policy/Clean.antt =====
-- What a check of core/group/policy.py emits when it denies.
use peerc.Common.{◌≡◌, refl, ◌↔◌, ◌⊎◌, inl, inr, arith}
use peerc.Group.Policy.{PolicyViolation, Checked, pass, denied, and_then}

-- A check passes without an event, or denies with exactly the event of the violation that it raises.
abbrev pub Clean : Checked → Type 0
Clean check = (check ≡ pass) ⊎ ((violation : PolicyViolation) × (check ≡ denied violation))

pub and_then-Clean : (first next : Checked) → Clean first → Clean next → Clean (and_then first next)
unfolding and_then
and_then-Clean first next (inl passed) (inl p) = inl (rw (passed, p) refl)
and_then-Clean first next (inl passed) (inr (v, d)) = inr (v, rw (passed, d) refl)
and_then-Clean first next (inr (v, d)) clean = inr (v, rw (d) refl)

pub and_then-passes :
    (first next : Checked)
    → Clean first
    → (and_then first next ≡ pass) ↔ ((first ≡ pass) × (next ≡ pass))
unfolding and_then
and_then-passes first next (inl passed) = rw (passed) (λ h. (refl, h), λ h. h.1)
and_then-passes first next (inr (v, d)) =
    rw (d) (λ h. absurd (ground arith), λ h. absurd (ground arith))
