-- ===== src/Group/Examples.antt =====
-- A managed group with one member, a rule that denies, and the checks on it.
use Prim.Native.Char.{code}
use Prim.Native.String as Text
use peerc.Common.{
  inl, String, eq_iff, ◌==◌, if◌then◌else◌, arith, ◌≡◌, refl, ◌↔◌, [], ◌∷◌, All, true, false, none,
  some,
}
use peerc.Common.Dicts.{lookup}
use peerc.Group.Policy.{
  allow, deny, CommunicationRule, GroupPolicy, GroupStore, Attempt, external_trust_denied,
  rule_denied, pass, denied, named_by, matches, is_membership_expired, get_membership, is_member,
  restricts_trust, trust_loop, check_external_trust, matrix_loop, and_then, policies_loop,
  policies_for, between_groups, check_communication,
}
use peerc.Group.Policy.Clean.{Clean}
use peerc.Group.Policy.Matrix.{Permits}
use peerc.Group.Policy.Groups.{MayCross, EachRead}
use peerc.Group.Policy.Decisions.{check_communication-Permits}
use peerc.Group.Policy.Trust.{MayTrust, check_external_trust-MayTrust}

abbrev no_finance : CommunicationRule
no_finance = record { source = "*"; destination = "Finance"; action = "chat"; effect = deny }

abbrev works : GroupPolicy
works = record {
  group_id = "g1";
  allow_external_trust = false;
  leave_requires_admin = true;
  allow_inter_group = false;
  communication_matrix = no_finance ∷ [];
  default_communication_effect = allow;
}

abbrev company : GroupStore
company = record {
  groups = record { group_id = "g1"; admin_device_id = "boss" } ∷ [];
  policies = ("g1", works) ∷ [];
  memberships = ("g1", ("bob", record { is_active = true; expires_at = some 100 }) ∷ []) ∷ [];
}

abbrev to_finance : Attempt
to_finance = record {
  action = "chat";
  source_device_id = "bob";
  dest_device_id = "ann";
  source_role = none;
  dest_role = some "finance";
  source_group_id = some "g1";
  dest_group_id = none;
}

-- `str.lower` of the texts below, where F is the only capital.
abbrev lower : String → String
lower Text.[] = Text.[]
lower (Text.◌∷◌ c s) = Text.◌∷◌ (if code c == 70 then "f" else c) (lower s)

-- Tests.
member_trusted : check_external_trust 100 (some company) "bob" ≡ pass
unfolding check_external_trust trust_loop restricts_trust is_member get_membership
    is_membership_expired lookup
member_trusted = refl

late_member :
    check_external_trust 101 (some company) "bob" ≡ denied (external_trust_denied "bob" "g1")
unfolding check_external_trust trust_loop restricts_trust is_member get_membership
    is_membership_expired lookup
late_member = refl

finance_denied :
    check_communication lower (some company) to_finance ≡ denied (rule_denied "g1" no_finance)
unfolding check_communication and_then between_groups policies_for policies_loop matrix_loop matches
    named_by lookup
finance_denied = refl

check_external_trust-MayTrust_example :
    Clean (check_external_trust 101 (some company) "bob")
    × ((check_external_trust 101 (some company) "bob" ≡ pass)
        ↔ All (MayTrust 101 company "bob") company.groups)
check_external_trust-MayTrust_example = check_external_trust-MayTrust 101 company "bob"

check_communication-Permits_example :
    Clean (check_communication lower (some company) to_finance)
    × ((check_communication lower (some company) to_finance ≡ pass) ↔ (
        MayCross company (some "g1") none
        × EachRead
            (λ (p : GroupPolicy).
              Permits lower to_finance p.default_communication_effect p.communication_matrix)
            company
            (some "g1")
            none))
check_communication-Permits_example =
    check_communication-Permits lower company to_finance (some "g1") none
      (refl, λ e. ground (arith, eq_iff "g1" "")) (inl refl)
