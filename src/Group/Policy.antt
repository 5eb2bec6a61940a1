-- ===== src/Group/Policy.antt =====
-- core/group/policy.py: rules, policies and the checks of PolicyEnforcer. Reading the group store
-- does not fail here; its tables are dicts by their keys, in the order of the queries.
pub mod Clean
pub mod Decisions
pub mod Groups
pub mod Matrix
pub mod Rules
pub mod Trust
use peerc.Common.{
  ℕ, ◌+◌, List, [], ◌∷◌, ◌++◌, Bool, true, false, ◌&&◌, ◌||◌, not, ◌==◌, ltb, leb, Option, none,
  some, String, str_eq, if◌then◌else◌, Result, ok, err,
}
use peerc.Common.Dicts.{Dict, lookup}

pub data PolicyEffect : Type 0 where
  allow deny : PolicyEffect

pub record CommunicationRule : Type 0 where
  pub source : String
  pub destination : String
  pub action : String
  pub effect : PolicyEffect

-- The fields of `GroupPolicy` that the checks below read.
pub record GroupPolicy : Type 0 where
  pub group_id : String
  pub allow_external_trust : Bool
  pub leave_requires_admin : Bool
  pub allow_inter_group : Bool
  pub communication_matrix : List CommunicationRule
  pub default_communication_effect : PolicyEffect

pub record Group : Type 0 where
  pub group_id : String
  pub admin_device_id : String

-- A row of `group_memberships`: its status is active or revoked.
pub record Membership : Type 0 where
  pub is_active : Bool
  pub expires_at : Option ℕ

-- The tables of the group store that the checks read.
pub record GroupStore : Type 0 where
  pub groups : List Group
  pub policies : Dict GroupPolicy
  pub memberships : Dict (Dict Membership)

-- The arguments of a communication check.
pub record Attempt : Type 0 where
  pub action : String
  pub source_device_id : String
  pub dest_device_id : String
  pub source_role : Option String
  pub dest_role : Option String
  pub source_group_id : Option String
  pub dest_group_id : Option String

pub data PolicyViolation : Type 0 where
  external_trust_denied : String → String → PolicyViolation
  leave_denied : String → String → PolicyViolation
  inter_group_denied : String → PolicyViolation
  rule_denied : String → CommunicationRule → PolicyViolation
  default_denied : String → PolicyViolation

-- The POLICY_VIOLATION events that a check emits, and how it ends.
abbrev pub Checked : Type 0
Checked = List PolicyViolation × Result PolicyViolation (Unit {0})

abbrev pub pass : Checked
pass = ([], ok tt)

-- A denial emits its event and raises.
abbrev pub denied : PolicyViolation → Checked
denied violation = (violation ∷ [], err violation)

-- Of `str.lower`, which goes by the tables of Unicode, nothing is used but that it is a function: it
-- is an argument, `lower`, of what compares names by it.
unfoldable pub named_by : (String → String) → String → Option String → Bool
named_by lower rule none = false
named_by lower rule (some name) = str_eq (lower rule) (lower name)

-- `CommunicationRule.matches`
unfoldable pub matches : (String → String) → CommunicationRule → Attempt → Bool
matches lower rule a =
    (str_eq rule.action "*" || str_eq (lower rule.action) (lower a.action))
    && (str_eq (lower rule.source) "*"
        || str_eq (lower rule.source) (lower a.source_device_id)
        || named_by lower rule.source a.source_role
        || named_by lower rule.source a.source_group_id)
    && (str_eq (lower rule.destination) "*"
        || str_eq (lower rule.destination) (lower a.dest_device_id)
        || named_by lower rule.destination a.dest_role
        || named_by lower rule.destination a.dest_group_id)

-- `is_membership_expired`
unfoldable pub is_membership_expired : ℕ → Membership → Bool
is_membership_expired now cert = elim cert.expires_at [ none ↦ false | some t ↦ ltb t now ]

abbrev table : Option (Dict Membership) → Dict Membership
table none = []
table (some d) = d

-- `get_membership` with its status.
unfoldable pub get_membership : GroupStore → String → String → Option Membership
get_membership store group_id device_id =
    lookup device_id (table (lookup group_id store.memberships))

-- The device is the founding admin or an active member whose certificate has not expired.
unfoldable pub is_member : ℕ → GroupStore → Group → String → Bool
is_member now store group device_id =
    if str_eq device_id group.admin_device_id
    then true
    else elim (get_membership store group.group_id device_id) [
      | none ↦ false
      | some cert ↦ cert.is_active && not (is_membership_expired now cert)
    ]

-- The group's policy forbids to trust outsiders.
unfoldable pub restricts_trust : GroupStore → Group → Bool
restricts_trust store group = elim (lookup group.group_id store.policies) [
  | none ↦ false
  | some policy ↦ not policy.allow_external_trust
]

unfoldable pub trust_loop : ℕ → GroupStore → String → List Group → Checked
trust_loop now store device_id [] = pass
trust_loop now store device_id (group ∷ groups) =
    let rest = trust_loop now store device_id groups in
    if not (restricts_trust store group)
    then rest
    else if is_member now store group device_id
    then rest
    else denied (external_trust_denied device_id group.group_id)

-- `check_external_trust`
unfoldable pub check_external_trust : ℕ → Option GroupStore → String → Checked
check_external_trust now none device_id = pass
check_external_trust now (some store) device_id = trust_loop now store device_id store.groups

-- `check_leave`
unfoldable pub check_leave : Option GroupStore → String → String → Bool → Checked
check_leave none group_id device_id is_admin = pass
check_leave (some store) group_id device_id is_admin =
    if is_admin then pass else elim (lookup group_id store.policies) [
      | none ↦ pass
      | some policy ↦
          if policy.leave_requires_admin then denied (leave_denied group_id device_id) else pass
    ]

-- The group's policy forbids to communicate with other groups.
unfoldable pub restricts_inter_group : GroupStore → String → Bool
restricts_inter_group store group_id = elim (lookup group_id store.policies) [
  | none ↦ false
  | some policy ↦ not policy.allow_inter_group
]

-- `check_inter_group`
unfoldable pub check_inter_group : Option GroupStore → String → String → Checked
check_inter_group none source target = pass
check_inter_group (some store) source target =
    if str_eq source target
    then pass
    else if restricts_inter_group store source
    then denied (inter_group_denied source)
    else if restricts_inter_group store target
    then denied (inter_group_denied target)
    else pass

-- The loop over one policy's matrix: the first rule that matches decides, or else the default.
unfoldable pub matrix_loop :
    (String → String) → GroupPolicy → Attempt → List CommunicationRule → Checked
matrix_loop lower policy a [] = elim policy.default_communication_effect [
  | allow ↦ pass
  | deny ↦ denied (default_denied policy.group_id)
]
matrix_loop lower policy a (rule ∷ rules) =
    let rest = matrix_loop lower policy a rules in
    if matches lower rule a
    then elim rule.effect [ allow ↦ pass | deny ↦ denied (rule_denied policy.group_id rule) ]
    else rest

-- One check after another: the second runs when the first has passed.
unfoldable pub and_then : Checked → Checked → Checked
and_then (events, err violation) next = (events, err violation)
and_then (events, ok _) next = (events ++ next.0, next.1)

unfoldable pub policies_loop : (String → String) → Attempt → List GroupPolicy → Checked
policies_loop lower a [] = pass
policies_loop lower a (policy ∷ policies) =
    and_then (matrix_loop lower policy a policy.communication_matrix)
      (policies_loop lower a policies)

-- A group id that is there: `None` and the empty text are both false in Python.
abbrev pub present : Option String → Option String
present none = none
present (some g) = if str_eq g "" then none else some g

abbrev pub policy_of : GroupStore → String → List GroupPolicy
policy_of store group_id = elim (lookup group_id store.policies) [ none ↦ [] | some p ↦ p ∷ [] ]

abbrev pub all_policies : Dict GroupPolicy → List GroupPolicy
all_policies [] = []
all_policies ((k, p) ∷ d) = p ∷ all_policies d

-- The policies to evaluate. Python's set of the two ids has no order that is promised; here the
-- source's group comes first.
unfoldable pub policies_for : GroupStore → Option String → Option String → List GroupPolicy
policies_for store none none = all_policies store.policies
policies_for store (some s) none = policy_of store s
policies_for store none (some d) = policy_of store d
policies_for store (some s) (some d) =
    if str_eq s d then policy_of store s else policy_of store s ++ policy_of store d

unfoldable pub between_groups : Option GroupStore → Option String → Option String → Checked
between_groups store (some s) (some d) = if str_eq s d then pass else check_inter_group store s d
between_groups store _ _ = pass

abbrev matrix_check : (String → String) → Option GroupStore → Attempt → Checked
matrix_check lower none a = pass
matrix_check lower (some store) a =
    policies_loop lower a (policies_for store (present a.source_group_id) (present a.dest_group_id))

-- `check_communication`
unfoldable pub check_communication : (String → String) → Option GroupStore → Attempt → Checked
check_communication lower store a =
    and_then (between_groups store (present a.source_group_id) (present a.dest_group_id))
      (matrix_check lower store a)
