-- ===== src/Connectivity/Relay/Answers.antt =====
-- What a requester may learn from the answers of a relay.
use peerc.Common.{
  ◌≡◌, ◌≢◌, ◌↔◌, ◌⊎◌, inl, inr, List, [], ◌∷◌, Bool, true, some, String, str_eq, ok, err, eq_iff,
  arith, Bool-cases, Option-cases,
}
use peerc.Group.Policy.{GroupStore, Membership, get_membership}
use peerc.Connectivity.Relay.{
  RelayError, target_unreachable, hosts, is_active_member, authorize_relay_request,
  authorize_relay_candidate_query,
}

-- The group is one of those that the device hosts.
abbrev pub Hosted : String → List String → Type 0
Hosted group_id [] = ⊥
Hosted group_id (group ∷ groups) = (group ≡ group_id) ⊎ Hosted group_id groups

-- The device has an active membership in the group.
abbrev pub ActiveMember : GroupStore → String → String → Type 0
ActiveMember store group_id device_id =
    (membership : Membership) × (get_membership store group_id device_id ≡ some membership)
    × (membership.is_active ≡ true)

hosts-Hosted :
    (groups : List String) (group_id : String)
    → (hosts groups group_id ≡ true → Hosted group_id groups)
      × (Hosted group_id groups → hosts groups group_id ≡ true)
unfolding hosts
hosts-Hosted [] group_id = (λ h. absurd (ground arith), λ h. absurd h)
hosts-Hosted (group ∷ groups) group_id =
    let (sound, complete) = hosts-Hosted groups group_id in
    elim (Bool-cases (str_eq group group_id)) [
      | inl same ↦ (λ h. inl (ground (arith, eq_iff group group_id)), λ h. ground arith)
      | inr other ↦ (
        λ h. inr (sound (ground arith)),
        λ h. elim h [
          | inl same ↦ ground (arith, eq_iff group group_id)
          | inr later ↦ ground (arith, complete later)
        ],
      )
    ]

is_active_member-ActiveMember :
    (store : GroupStore) (group_id device_id : String)
    → (is_active_member store group_id device_id ≡ true → ActiveMember store group_id device_id)
      × (ActiveMember store group_id device_id → is_active_member store group_id device_id ≡ true)
unfolding is_active_member
is_active_member-ActiveMember store group_id device_id = (
  λ h. elim (Option-cases (get_membership store group_id device_id)) [
    | inl missing ↦ absurd (ground arith)
    | inr (membership, found) ↦ (membership, found, ground arith)
  ],
  λ (membership, found, active). ground arith,
)

-- A relay request is let through exactly for a group that this device hosts, from a device whose
-- membership there is active, and to a target that is connected.
authorize_relay_request-iff-allowed :
    (group_id requester : String) (active_groups : List String) (store : GroupStore)
    (is_target_connected : Bool)
    → (authorize_relay_request group_id requester active_groups store is_target_connected ≡ ok tt)
      ↔ (Hosted group_id active_groups
          × ActiveMember store group_id requester
          × (is_target_connected ≡ true))
unfolding authorize_relay_request
authorize_relay_request-iff-allowed group_id requester active_groups store is_target_connected =
    let (sound, complete) = hosts-Hosted active_groups group_id in
    let (member, membership) = is_active_member-ActiveMember store group_id requester in
    (
      λ passed. (sound (ground arith), member (ground arith), ground arith),
      λ (hosted, active, connected). ground (arith, complete hosted, membership active),
    )

-- A requester whose query for relays is refused gets the same refusal for a relay request, whether
-- or not the target is connected, and never the answer that it is not.
pub relay_target_hidden :
    (group_id requester : String) (active_groups : List String) (store : GroupStore)
    (is_target_connected : Bool) (refusal : RelayError)
    → authorize_relay_candidate_query group_id requester active_groups store ≡ err refusal
    → (authorize_relay_request group_id requester active_groups store is_target_connected
        ≡ err refusal)
      × (refusal ≢ target_unreachable)
unfolding authorize_relay_request authorize_relay_candidate_query
relay_target_hidden group_id requester active_groups store is_target_connected refusal refused =
    (ground arith, λ e. ground arith)
