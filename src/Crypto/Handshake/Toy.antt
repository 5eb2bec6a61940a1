-- ===== src/Crypto/Handshake/Toy.antt =====
-- Two devices with a toy signature, which is the public key itself.
use Prim.Native.Char.{code}
use Prim.Native.String as Text
use peerc.Common.{
  refl, ℕ, ◌+◌, [], ◌∷◌, length, replicate, Bool, true, false, ◌==◌, none, some, String, eq_iff,
  if◌then◌else◌, arith,
}
use peerc.Common.Dicts.{lookup, keep_if}
use peerc.Protocol.Bytes.{Bytes}
use peerc.Protocol.Hex.{to_hex}
use peerc.Protocol.Values.{text, Fields, field}
use peerc.Group.Policy.{check_external_trust}
use peerc.Trust.Store.{TrustStore, unknown, pending, check, record_first_seen}
use peerc.Crypto.Nonces.{NonceCache, check_and_add}
use peerc.Crypto.Handshake.{Primitives, DeviceKeypair, EphemeralKeypair}
use peerc.Crypto.Handshake.Trusting.{check_trust, record_trust}
use peerc.Crypto.Handshake.Honest.{IsHonest, IsEphemeral}
use peerc.Crypto.Handshake.Agreed.{Side, Accepts}

abbrev pub same_bytes : Bytes → Bytes → Bool
same_bytes [] [] = true
same_bytes (a ∷ as_) (b ∷ bs) = let rest = same_bytes as_ bs in if a == b then rest else false
same_bytes _ _ = false

-- A text in front of more bytes: its characters, moved past the newline, and a zero.
abbrev pub line : String → Bytes → Bytes
line Text.[] rest = 0 ∷ rest
line (Text.◌∷◌ c s) rest = (code c + 11) ∷ line s rest

abbrev pub toy_json : Fields → Bytes
toy_json (field k (text s) rest) = line s (toy_json rest)
toy_json _ = []

abbrev pub toy : Primitives
toy = record {
  compute_device_id = to_hex;
  is_public_key = λ key. true;
  verify = λ key signature message. same_bytes key signature;
  canonical_json_bytes = toy_json;
  sha256 = λ message. length message ∷ [];
  exchange = λ mine theirs. some (replicate 32 7);
}

abbrev pub alice_device : DeviceKeypair
alice_device = record { device_id = "01"; public_key = 1 ∷ []; sign = λ d. 1 ∷ [] }

abbrev pub bob_device : DeviceKeypair
bob_device = record { device_id = "02"; public_key = 2 ∷ []; sign = λ d. 2 ∷ [] }

abbrev pub ephemeral : ℕ → EphemeralKeypair
ephemeral n = record { private_key = n ∷ []; public_key = replicate 32 n }

abbrev pub no_nonces : NonceCache
no_nonces = record { ttl = 300; seen = [] }

abbrev pub no_devices : TrustStore
no_devices = record { devices = []; transitions = []; group_store = none }

abbrev pub alice : Side
alice = record {
  me = alice_device;
  mine = ephemeral 3;
  nonce = "na";
  name = "Alice";
  now = 5;
  state = record { nonce_cache = no_nonces; trust_store = none };
}

abbrev pub bob : Side
bob = record {
  me = bob_device;
  mine = ephemeral 4;
  nonce = "nb";
  name = "Bob";
  now = 6;
  state = record { nonce_cache = no_nonces; trust_store = some no_devices };
}

pub alice-IsHonest : IsHonest toy alice_device
unfolding to_hex
alice-IsHonest = record {
  named = λ e. ground (arith, eq_iff "01" "");
  digest = refl;
  proper = refl;
  key_bytes = (omega arith, tt);
  key_there = λ e. ground (arith, eq_iff "01" "");
  sign_bytes = λ d. (omega arith, tt);
  sign_there = λ d e. ground (arith, eq_iff "01" "");
  verifies = λ d. refl;
}

pub bob-IsHonest : IsHonest toy bob_device
unfolding to_hex
bob-IsHonest = record {
  named = λ e. ground (arith, eq_iff "02" "");
  digest = refl;
  proper = refl;
  key_bytes = (omega arith, tt);
  key_there = λ e. ground (arith, eq_iff "02" "");
  sign_bytes = λ d. (omega arith, tt);
  sign_there = λ d e. ground (arith, eq_iff "02" "");
  verifies = λ d. refl;
}

pub three-IsEphemeral : IsEphemeral (ephemeral 3)
unfolding to_hex
three-IsEphemeral = record {
  key_bytes = omega arith;
  key_length = refl;
  key_there = λ e. ground (arith, eq_iff (to_hex (replicate 32 3)) "");
}

pub four-IsEphemeral : IsEphemeral (ephemeral 4)
unfolding to_hex
four-IsEphemeral = record {
  key_bytes = omega arith;
  key_length = refl;
  key_there = λ e. ground (arith, eq_iff (to_hex (replicate 32 4)) "");
}

pub alice-Accepts : Accepts alice bob
unfolding check_and_add keep_if lookup check_trust record_trust
alice-Accepts = record {
  pre_decision = unknown;
  decision = unknown;
  fresh = refl;
  allowed = refl;
  done = refl;
}

pub bob-Accepts : Accepts bob alice
unfolding check_and_add keep_if lookup check_trust record_trust check record_first_seen
    check_external_trust
bob-Accepts = record {
  pre_decision = unknown;
  decision = pending;
  fresh = refl;
  allowed = refl;
  done = refl;
}
