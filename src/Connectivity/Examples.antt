-- ===== src/Connectivity/Examples.antt =====
-- A relay for one group with one active member.
use peerc.Common.{◌≡◌, ◌≢◌, refl, List, [], ◌∷◌, true, false, none, String, ok, err}
use peerc.Common.Dicts.{lookup}
use peerc.Group.Policy.{GroupStore, get_membership}
use peerc.Connectivity.Relay.{
  not_hosting, relay_auth, target_unreachable, hosts, is_active_member, authorize_relay_request,
  authorize_relay_candidate_query,
}
use peerc.Connectivity.Relay.Answers.{relay_target_hidden}

abbrev club : GroupStore
club = record {
  groups = [];
  policies = [];
  memberships =
      (
        "g1",
        ("bob", record { is_active = true; expires_at = none })
            ∷ ("eve", record { is_active = false; expires_at = none })
            ∷ [],
      )
      ∷ [];
}

abbrev hosted_groups : List String
hosted_groups = "g0" ∷ "g1" ∷ []

-- Tests.
member_relayed : authorize_relay_request "g1" "bob" hosted_groups club true ≡ ok tt
unfolding authorize_relay_request hosts is_active_member get_membership lookup
member_relayed = refl

target_away : authorize_relay_request "g1" "bob" hosted_groups club false ≡ err target_unreachable
unfolding authorize_relay_request hosts is_active_member get_membership lookup
target_away = refl

revoked_refused :
    authorize_relay_candidate_query "g1" "eve" hosted_groups club ≡ err (relay_auth "g1")
unfolding authorize_relay_candidate_query hosts is_active_member get_membership lookup
revoked_refused = refl

not_hosted : authorize_relay_request "g2" "bob" hosted_groups club true ≡ err (not_hosting "g2")
unfolding authorize_relay_request hosts is_active_member get_membership lookup
not_hosted = refl

-- Witnesses.
relay_target_hidden_example :
    (authorize_relay_request "g1" "eve" hosted_groups club true ≡ err (relay_auth "g1"))
    × (relay_auth "g1" ≢ target_unreachable)
relay_target_hidden_example =
    relay_target_hidden "g1" "eve" hosted_groups club true (relay_auth "g1") revoked_refused
