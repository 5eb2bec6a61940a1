-- ===== src/Group/Policy/Decisions.antt =====
-- When `check_communication` of core/group/policy.py passes, in the words of the policies.
use peerc.Common.{◌≡◌, ◌↔◌, Option, some, String}
use peerc.Group.Policy.{
  GroupPolicy, GroupStore, Attempt, pass, policies_loop, policies_for, between_groups,
  check_communication,
}
use peerc.Group.Policy.Clean.{Clean, and_then-Clean, and_then-passes}
use peerc.Group.Policy.Matrix.{Permits, policies_loop-passes}
use peerc.Group.Policy.Groups.{
  MayCross, EachRead, NamesGroup, present-is, between_groups-Clean, between_groups-iff-MayCross,
  policies_for-iff-EachRead,
}

-- A communication is allowed exactly when the groups that it names, where they are two, both allow to
-- communicate with other groups, and in each policy of the groups that it names, or in every policy
-- when it names none, the first rule about the attempt allows it, or no rule is about it and the
-- default allows it. A rule is about an attempt when its action and its words for the source and the
-- destination are a wildcard or, in lower case, the action and the id, the role or the group of the
-- device. A denial emits one event, of the violation that it raises, and an allowed communication
-- emits none.
pub check_communication-Permits :
    (lower : String → String) (store : GroupStore) (a : Attempt) (s d : Option String)
    → NamesGroup a.source_group_id s
    → NamesGroup a.dest_group_id d
    → Clean (check_communication lower (some store) a)
      × ((check_communication lower (some store) a ≡ pass) ↔ (
          MayCross store s d
          × EachRead
              (λ (p : GroupPolicy).
                Permits lower a p.default_communication_effect p.communication_matrix)
              store
              s
              d))
unfolding check_communication
check_communication-Permits lower store a s d source dest =
    let P =
      λ (p : GroupPolicy). Permits lower a p.default_communication_effect p.communication_matrix in
    let from = present-is a.source_group_id s source in
    let to = present-is a.dest_group_id d dest in
    let (may, cross) = between_groups-iff-MayCross store s d in
    let (each, read) = policies_for-iff-EachRead P store s d in
    let (rest_clean, (on, off)) = policies_loop-passes lower a (policies_for store s d) in
    let clean = between_groups-Clean (some store) s d in
    let (split, join) =
      and_then-passes (between_groups (some store) s d)
        (policies_loop lower a (policies_for store s d)) clean in
    rw (from, to)
      (
        and_then-Clean _ _ clean rest_clean,
        (λ h. (may (split h).0, each (on (split h).1)), λ h. join (cross h.0, off (read h.1))),
      )
