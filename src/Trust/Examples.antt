-- ===== src/Trust/Examples.antt =====
-- A revoked device whose key comes back by approval and by a rotation.
use peerc.Common.{◌≡◌, ◌⊎◌, refl, List, [], ◌∷◌, Bool, true, none, some}
use peerc.Common.Dicts.{lookup, insert}
use peerc.Trust.Store.{
  revoked, trusted, TrustedDevice, TransitionCertificate, TrustStore, check, record_rotation,
}
use peerc.Trust.Store.Origins.{TrustedIn, RotatedFromTrusted, trust_origin}
use peerc.Trust.Store.Lasting.{
  perform, Operation, touched, approval, rotation, perform_all, revoked_for_good,
}

abbrev thief : TrustedDevice
thief = record {
  device_id = "d1";
  public_key = "k1";
  name = "Old phone";
  first_seen = 1;
  last_seen = 5;
  status = revoked;
  revoked_by = some "user";
  revoked_at = some 6;
  revoke_reason = none;
}

abbrev friend : TrustedDevice
friend = record thief { device_id = "d2"; public_key = "k2"; status = trusted; revoked_by = none }

abbrev known : TrustStore
known = record {
  devices = ("d1", thief) ∷ ("d2", friend) ∷ [];
  transitions = [];
  group_store = none;
}

abbrev onto_thief : TransitionCertificate
onto_thief = record {
  old_device_id = "d2";
  new_device_id = "d1";
  old_public_key = "k2";
  new_public_key = "k1";
  timestamp = 7;
  signature = "s";
}

abbrev signed : TransitionCertificate → Bool
signed cert = true

abbrev attempts : List Operation
attempts = approval "d1" ∷ rotation 8 onto_thief ∷ touched 9 "d1" ∷ []

thief_found : lookup "d1" known.devices ≡ some thief
unfolding lookup
thief_found = refl

revoked_for_good_example : (check (perform_all signed known attempts) "d1" "k1").1 ≡ revoked
revoked_for_good_example = revoked_for_good signed known attempts "d1" "k1" thief thief_found refl

abbrev newcomer : TrustStore
newcomer = record known { devices = ("d2", friend) ∷ [] }

rotated : TrustedIn (perform signed newcomer (rotation 8 onto_thief)).devices "d1"
unfolding perform record_rotation lookup insert
rotated = (
  record friend {
    device_id = "d1";
    public_key = "k1";
    first_seen = 8;
    last_seen = 8;
    revoked_at = none;
  },
  refl,
  refl,
)

trust_origin_example :
    TrustedIn newcomer.devices "d1"
    ⊎ (rotation 8 onto_thief ≡ approval "d1")
    ⊎ RotatedFromTrusted signed newcomer (rotation 8 onto_thief) "d1"
trust_origin_example = trust_origin signed newcomer (rotation 8 onto_thief) "d1" rotated
