-- ===== src/Group/Policy/Groups.antt =====
-- Which groups may communicate and which policies are read, core/group/policy.py.
use mathlib.Core.Path.{subst}
use peerc.Common.{
  Option-cases, eq_iff, ◌≢◌, ◌≡◌, refl, sym, ◌↔◌, ◌⊎◌, inl, inr, List, [], ◌∷◌, ◌++◌, All, true,
  false, Option, none, some, String, str_eq, arith, Bool-cases,
}
use peerc.Common.Dicts.{Dict, lookup}
use peerc.Group.Policy.{
  GroupPolicy, GroupStore, inter_group_denied, pass, restricts_inter_group, check_inter_group,
  present, policies_for, between_groups, policy_of, all_policies,
}
use peerc.Group.Policy.Clean.{Clean}

check_inter_group-Clean :
    (store : Option GroupStore) (source target : String)
    → Clean (check_inter_group store source target)
unfolding check_inter_group
check_inter_group-Clean none source target = inl refl
check_inter_group-Clean (some store) source target = elim (Bool-cases (str_eq source target)) [
  | inl same ↦ inl (ground arith)
  | inr other ↦ elim (Bool-cases (restricts_inter_group store source)) [
    | inl shut ↦ inr (inter_group_denied source, ground arith)
    | inr first ↦ elim (Bool-cases (restricts_inter_group store target)) [
      | inl shut ↦ inr (inter_group_denied target, ground arith)
      | inr second ↦ inl (ground arith)
    ]
  ]
]

pub between_groups-Clean :
    (store : Option GroupStore) (s d : Option String) → Clean (between_groups store s d)
unfolding between_groups
between_groups-Clean store none d = inl refl
between_groups-Clean store (some s) none = inl refl
between_groups-Clean store (some s) (some d) = elim (Bool-cases (str_eq s d)) [
  | inl same ↦ inl (ground arith)
  | inr other ↦ rw (other) (check_inter_group-Clean store s d)
]

-- No policy of the group forbids to communicate with other groups.
abbrev pub Opens : GroupStore → String → Type 0
Opens store g =
    (lookup g store.policies ≡ none)
    ⊎ ((policy : GroupPolicy) × (lookup g store.policies ≡ some policy)
        × (policy.allow_inter_group ≡ true))

-- Two groups that are named and differ both allow it.
abbrev pub MayCross : GroupStore → Option String → Option String → Type 0
MayCross store (some s) (some d) = (s ≡ d) ⊎ (Opens store s × Opens store d)
MayCross store _ _ = Unit

-- The group has no policy, or a policy with the property.
abbrev pub AtGroup : (GroupPolicy → Type 0) → GroupStore → String → Type 0
AtGroup P store g =
    (lookup g store.policies ≡ none)
    ⊎ ((policy : GroupPolicy) × (lookup g store.policies ≡ some policy) × P policy)

-- The policies of the groups that are named have the property, or all there are when none is named.
abbrev pub EachRead : (GroupPolicy → Type 0) → GroupStore → Option String → Option String → Type 0
EachRead P store none none = All (λ (entry : String × GroupPolicy). P entry.1) store.policies
EachRead P store (some s) none = AtGroup P store s
EachRead P store none (some d) = AtGroup P store d
EachRead P store (some s) (some d) = AtGroup P store s × AtGroup P store d

-- The group that an argument names: one that is there and is not the empty text.
abbrev pub NamesGroup : Option String → Option String → Type 0
NamesGroup given none = (given ≡ none) ⊎ (given ≡ some "")
NamesGroup given (some g) = (given ≡ some g) × (g ≢ "")

pub present-is : (given group : Option String) → NamesGroup given group → present given ≡ group
present-is given none (inl absent) = rw (absent) refl
present-is given none (inr empty) = rw (empty) refl
present-is given (some g) (there, filled) =
    let other : str_eq g "" ≡ false = ground (arith, eq_iff g "") in rw (there, other) refl

restricts_iff :
    (store : GroupStore) (g : String) → (restricts_inter_group store g ≡ false) ↔ Opens store g
unfolding restricts_inter_group
restricts_iff store g = elim (Option-cases (lookup g store.policies)) [
  | inl missing ↦ (λ _. inl missing, λ _. ground arith)
  | inr (policy, found) ↦ (
    λ h. inr (policy, found, ground arith),
    λ h. elim h [
      | inl missing ↦ absurd (ground arith)
      | inr (other, there, open_to) ↦
          let same : policy ≡ other = ground arith in
          let opens : policy.allow_inter_group ≡ true = rw (same) open_to in ground arith
    ],
  )
]

pub between_groups-iff-MayCross :
    (store : GroupStore) (s d : Option String)
    → (between_groups (some store) s d ≡ pass) ↔ MayCross store s d
unfolding between_groups check_inter_group
between_groups-iff-MayCross store none none = (λ _. tt, λ _. refl)
between_groups-iff-MayCross store none (some d) = (λ _. tt, λ _. refl)
between_groups-iff-MayCross store (some s) none = (λ _. tt, λ _. refl)
between_groups-iff-MayCross store (some s) (some d) =
    let (same_id, id_same) = eq_iff s d in
    let (opens_s, open_s) = restricts_iff store s in
    let (opens_d, open_d) = restricts_iff store d in
    elim (Bool-cases (str_eq s d)) [
      | inl same ↦ (λ _. inl (same_id same), λ _. ground arith)
      | inr other ↦ elim (Bool-cases (restricts_inter_group store s)) [
        | inl shut ↦ (
          λ h. absurd (ground arith),
          λ h. elim h [
            | inl e ↦ absurd (ground (arith, id_same e))
            | inr (o, _) ↦ absurd (ground (arith, open_s o))
          ],
        )
        | inr first ↦ elim (Bool-cases (restricts_inter_group store d)) [
          | inl shut ↦ (
            λ h. absurd (ground arith),
            λ h. elim h [
              | inl e ↦ absurd (ground (arith, id_same e))
              | inr (_, o) ↦ absurd (ground (arith, open_d o))
            ],
          )
          | inr second ↦ (λ _. inr (opens_s first, opens_d second), λ _. ground arith)
        ]
      ]
    ]

policy_of_iff :
    (P : GroupPolicy → Type 0) (store : GroupStore) (g : String)
    → All P (policy_of store g) ↔ AtGroup P store g
policy_of_iff P store g = elim (Option-cases (lookup g store.policies)) [
  | inl missing ↦
      let nothing : policy_of store g ≡ [] = ground arith in
      (λ _. inl missing, λ _. subst (All P) (sym nothing) tt)
  | inr (policy, found) ↦
      let one : policy_of store g ≡ policy ∷ [] = ground arith in
      (
        λ h. inr (policy, found, (subst (All P) one h).0),
        λ h. elim h [
          | inl missing ↦ absurd (ground arith)
          | inr (other, there, good) ↦
              let same : other ≡ policy = ground arith in
              subst (All P) (sym one) (subst P same good, tt)
        ],
      )
]

all_policies_iff :
    (P : GroupPolicy → Type 0) (d : Dict GroupPolicy)
    → All P (all_policies d) ↔ All (λ (entry : String × GroupPolicy). P entry.1) d
all_policies_iff P [] = (λ h. tt, λ h. tt)
all_policies_iff P ((k, p) ∷ d) =
    let (there, back) = all_policies_iff P d in (λ h. (h.0, there h.1), λ h. (h.0, back h.1))

All-join : {A : Type 0} (P : A → Type 0) (xs ys : List A) → All P (xs ++ ys) ↔ (All P xs × All P ys)
All-join P [] ys = (λ h. (tt, h), λ h. h.1)
All-join P (x ∷ xs) ys =
    let (there, back) = All-join P xs ys in
    (λ h. ((h.0, (there h.1).0), (there h.1).1), λ h. (h.0.0, back (h.0.1, h.1)))

pub policies_for-iff-EachRead :
    (P : GroupPolicy → Type 0) (store : GroupStore) (s d : Option String)
    → All P (policies_for store s d) ↔ EachRead P store s d
unfolding policies_for
policies_for-iff-EachRead P store none none = all_policies_iff P store.policies
policies_for-iff-EachRead P store none (some d) = policy_of_iff P store d
policies_for-iff-EachRead P store (some s) none = policy_of_iff P store s
policies_for-iff-EachRead P store (some s) (some d) =
    let (at_s, of_s) = policy_of_iff P store s in
    let (at_d, of_d) = policy_of_iff P store d in
    elim (Bool-cases (str_eq s d)) [
      | inl same ↦
          let e : s ≡ d = (eq_iff s d).0 same in
          rw (same) (λ h. (at_s h, subst (AtGroup P store) e (at_s h)), λ h. of_s h.0)
      | inr other ↦
          let (apart, together) = All-join P (policy_of store s) (policy_of store d) in
          rw (other) (λ h. (at_s (apart h).0, at_d (apart h).1), λ h. together (of_s h.0, of_d h.1))
    ]
