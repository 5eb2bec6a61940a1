-- ===== src/Trust/Rotation.antt =====
-- core/trust/store.py: the devices that rotations of keys link, and the check that takes them into
-- account. The loop runs on fuel; a set is a list in which the order means nothing.
pub mod Terminates
pub mod Links
pub mod Component
pub mod Verdict
mod Examples
use peerc.Common.{
  ℕ, zero, suc, ◌+◌, ◌*◌, List, [], ◌∷◌, ◌++◌, length, Bool, true, false, not, Option, none, some,
  String, str_eq, leb, if◌then◌else◌,
}
use mathlib.Core.List.{reverse}
use peerc.Common.Dicts.{lookup}
use peerc.Trust.Store.{
  TrustStatus, TrustedDevice, TransitionCertificate, TrustStore, TrustEvent, revoked_device_attempt,
  TrustDecision, check,
}

unfoldable pub mem : String → List String → Bool
mem x [] = false
mem x (y ∷ ys) = let rest = mem x ys in if str_eq y x then true else rest

-- SELECT new_device_id FROM identity_transitions WHERE old_device_id = ?
unfoldable pub successors : List TransitionCertificate → String → List String
successors [] current = []
successors (c ∷ cs) current =
    let rest = successors cs current in
    if str_eq c.old_device_id current then c.new_device_id ∷ rest else rest

-- SELECT old_device_id FROM identity_transitions WHERE new_device_id = ?
unfoldable pub predecessors : List TransitionCertificate → String → List String
predecessors [] current = []
predecessors (c ∷ cs) current =
    let rest = predecessors cs current in
    if str_eq c.new_device_id current then c.old_device_id ∷ rest else rest

-- The loop over the queue, of which the head is the end that `pop` takes; none: out of fuel.
unfoldable pub walk :
    List TransitionCertificate → ℕ → List String → List String → Option (List String)
walk cs fuel [] visited = some visited
walk cs zero (current ∷ queue) visited = none
walk cs (suc fuel) (current ∷ queue) visited =
    let skipped = walk cs fuel queue visited in
    let visiting =
      walk cs fuel (reverse (predecessors cs current) ++ (reverse (successors cs current) ++ queue))
        (current ∷ visited) in
    if mem current visited then skipped else visiting

-- `_order_key`
unfoldable pub order_key : List TransitionCertificate → String → ℕ
order_key [] did = 0
order_key (c ∷ cs) did =
    let rest = order_key cs did in if str_eq c.new_device_id did then c.timestamp else rest

unfoldable pub insert_by : (String → ℕ) → String → List String → List String
insert_by key x [] = x ∷ []
insert_by key x (y ∷ ys) =
    let rest = insert_by key x ys in if leb (key x) (key y) then x ∷ y ∷ ys else y ∷ rest

-- `sorted(visited, key=...)`
unfoldable pub sorted : (String → ℕ) → List String → List String
sorted key [] = []
sorted key (x ∷ xs) = insert_by key x (sorted key xs)

-- Enough: each certificate puts two ids on the queue at most.
abbrev pub walk_fuel : List TransitionCertificate → ℕ
walk_fuel cs = 1 + 2 * length cs

sorted_of : List TransitionCertificate → Option (List String) → Option (List String)
sorted_of cs none = none
sorted_of cs (some visited) = some (sorted (order_key cs) visited)

-- `get_rotation_chain`
unfoldable pub get_rotation_chain : TrustStore → String → Option (List String)
unfolding sorted_of
get_rotation_chain store device_id =
    let cs = store.transitions in sorted_of cs (walk cs (walk_fuel cs) (device_id ∷ []) [])

-- The event of a taint is emitted unless `check` has answered REVOKED already.
abbrev pub taint_events : TrustDecision → String → List TrustEvent
taint_events TrustDecision.revoked device_id = []
taint_events _ device_id = revoked_device_attempt device_id ∷ []

abbrev pub status_of : Option TrustedDevice → Option TrustStatus
status_of none = none
status_of (some d) = some d.status

-- The loop over the chain, from whether a trusted device was seen.
unfoldable pub judge_chain :
    TrustStore → String → TrustDecision → Bool → List String → List TrustEvent × TrustDecision
judge_chain store device_id direct chain_has_trusted [] =
    ([], if chain_has_trusted then TrustDecision.trusted else direct)
judge_chain store device_id direct chain_has_trusted (chain_id ∷ chain) =
    let trusting = judge_chain store device_id direct true chain in
    let going_on = judge_chain store device_id direct chain_has_trusted chain in
    elim (status_of (lookup chain_id store.devices)) [
      | some TrustStatus.revoked ↦ (taint_events direct device_id, TrustDecision.revoked)
      | some TrustStatus.trusted ↦ trusting
      | some TrustStatus.pending ↦ going_on
      | none ↦ going_on
    ]

judge_if_any :
    TrustStore
    → String
    → TrustDecision
    → Option (List String)
    → Option (List TrustEvent × TrustDecision)
judge_if_any store device_id direct none = none
judge_if_any store device_id direct (some chain) =
    some (judge_chain store device_id direct false chain)

after_check :
    TrustStore → String → List TrustEvent × TrustDecision → Option (List TrustEvent × TrustDecision)
unfolding judge_if_any
after_check store device_id (events, TrustDecision.key_changed) =
    some (events, TrustDecision.key_changed)
after_check store device_id (events, direct) =
    elim (judge_if_any store device_id direct (get_rotation_chain store device_id)) [
      | none ↦ none
      | some (more, decision) ↦ some (events ++ more, decision)
    ]

-- `check_with_rotation`
unfoldable pub check_with_rotation :
    TrustStore → String → String → Option (List TrustEvent × TrustDecision)
unfolding after_check
check_with_rotation store device_id public_key =
    after_check store device_id (check store device_id public_key)
