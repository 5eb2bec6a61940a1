-- ===== src/Connectivity/Relay.antt =====
-- core/connectivity/relay.py: the authorization of a relay request and of a query for relays.
pub mod Answers
use peerc.Common.{
  List, [], ◌∷◌, Bool, true, false, not, Option, none, some, String, str_eq, if◌then◌else◌, Result,
  ok, err,
}
use peerc.Group.Policy.{GroupStore, get_membership}

pub data RelayError : Type 0 where
  not_hosting relay_auth : String → RelayError
  target_unreachable : RelayError

-- `group_id in relay_active_groups`
unfoldable pub hosts : List String → String → Bool
hosts [] group_id = false
hosts (group ∷ groups) group_id =
    let rest = hosts groups group_id in if str_eq group group_id then true else rest

-- The status is read and is ACTIVE.
unfoldable pub is_active_member : GroupStore → String → String → Bool
is_active_member store group_id device_id = elim (get_membership store group_id device_id) [
  | none ↦ false
  | some membership ↦ membership.is_active
]

-- `authorize_relay_request`
unfoldable pub authorize_relay_request :
    String → String → List String → GroupStore → Bool → Result RelayError (Unit {0})
authorize_relay_request group_id requester active_groups store is_target_connected =
    if not (hosts active_groups group_id)
    then err (not_hosting group_id)
    else if not (is_active_member store group_id requester)
    then err (relay_auth group_id)
    else if not is_target_connected
    then err target_unreachable
    else ok tt

-- `authorize_relay_candidate_query`
unfoldable pub authorize_relay_candidate_query :
    String → String → List String → GroupStore → Result RelayError (Unit {0})
authorize_relay_candidate_query group_id requester active_groups store =
    if not (hosts active_groups group_id)
    then err (not_hosting group_id)
    else if not (is_active_member store group_id requester)
    then err (relay_auth group_id)
    else ok tt
