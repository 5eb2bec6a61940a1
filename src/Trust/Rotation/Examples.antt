-- ===== src/Trust/Rotation/Examples.antt =====
-- A device id that two rotations lead to, and the store that has a row for the middle one only.
use peerc.Common.{
  ◌≡◌, refl, ◌↔◌, inl, inr, List, [], ◌∷◌, none, some, String, str_eq, arith, Bool-cases,
}
use peerc.Common.Dicts.{lookup}
use peerc.Trust.Store.{
  TrustStatus, TrustedDevice, TransitionCertificate, TrustStore, TrustEvent, TrustDecision, check,
}
use peerc.Trust.Rotation.{
  mem, successors, predecessors, walk, order_key, insert_by, sorted, status_of, judge_chain,
  get_rotation_chain, check_with_rotation,
}
use peerc.Trust.Rotation.Links.{Connected, here, backward, In}
use peerc.Trust.Rotation.Component.{get_rotation_chain-iff-Connected}
use peerc.Trust.Rotation.Verdict.{
  HasKin, Verdict, check_with_rotation-Verdict, unknown_id_trusted_for_any_key,
}

abbrev cert : String → String → TransitionCertificate
cert old new = record {
  old_device_id = old;
  new_device_id = new;
  old_public_key = "k";
  new_public_key = "l";
  timestamp = 7;
  signature = "s";
}

abbrev phone : TrustedDevice
phone = record {
  device_id = "d1";
  public_key = "k1";
  name = "Phone";
  first_seen = 1;
  last_seen = 5;
  status = TrustStatus.trusted;
  revoked_by = none;
  revoked_at = none;
  revoke_reason = none;
}

abbrev store : TrustStore
store = record {
  devices = ("d1", phone) ∷ [];
  transitions = cert "d0" "d1" ∷ cert "d1" "d2" ∷ cert "e0" "e1" ∷ [];
  group_store = none;
}

-- Tests.
chain_of_d2 : get_rotation_chain store "d2" ≡ some ("d0" ∷ "d1" ∷ "d2" ∷ [])
unfolding get_rotation_chain walk mem successors predecessors sorted insert_by order_key
chain_of_d2 = refl

any_key : check_with_rotation store "d2" "no key at all" ≡ some ([], TrustDecision.trusted)
unfolding check_with_rotation check lookup judge_chain get_rotation_chain walk mem successors
    predecessors sorted insert_by order_key
any_key = refl

-- Witnesses.
get_rotation_chain-iff-Connected_example :
    (chain : List String) × (get_rotation_chain store "d2" ≡ some chain)
    × ((x : String) → (In x chain) ↔ Connected store.transitions "d2" x)
get_rotation_chain-iff-Connected_example = get_rotation_chain-iff-Connected store "d2"

check_with_rotation-Verdict_example :
    (events : List TrustEvent) × (decision : TrustDecision) × (check_with_rotation store "d2" "k2"
      ≡ some (events, decision))
    × Verdict store "d2" (check store "d2" "k2").1 decision
check_with_rotation-Verdict_example = check_with_rotation-Verdict store "d2" "k2"

d2_new : lookup "d2" store.devices ≡ none
unfolding lookup
d2_new = refl

d2_kin : HasKin store TrustStatus.trusted "d2"
unfolding lookup
d2_kin = ("d1", backward here (inr (inl (refl, refl))), refl)

not_revoked : (x : String) → status_of (lookup x store.devices) ≡ some TrustStatus.revoked → ⊥
unfolding lookup
not_revoked x h = elim (Bool-cases (str_eq "d1" x)) [
  | inl same ↦ ground arith
  | inr other ↦ ground arith
]

unknown_id_trusted_for_any_key_example :
    (events : List TrustEvent) × (check_with_rotation store "d2" "any"
      ≡ some (events, TrustDecision.trusted))
unknown_id_trusted_for_any_key_example =
    unknown_id_trusted_for_any_key store "d2" "any" d2_new d2_kin (λ (x, _, has). not_revoked x has)
