-- ===== src/Crypto/Handshake/Honest.antt =====
-- The steps of the handshake on messages of an honest device.
use mathlib.Core.Path.{ap₂}
use peerc.Common.{
  ◌≡◌, ◌≢◌, refl, ap, ◌∙◌, ℕ, [], All, length, true, some, String, eq_iff, ok, arith,
}
use peerc.Protocol.Bytes.{Byte, Bytes}
use peerc.Protocol.Hex.{to_hex, from_hex-to_hex}
use peerc.Protocol.Values.{Fields}
use peerc.Trust.Store.{TrustDecision}
use peerc.Crypto.Nonces.{check_and_add}
use peerc.Crypto.Handshake.{Primitives, DeviceKeypair, EphemeralKeypair, State}
use peerc.Crypto.Handshake.Trusting.{verify_device_identity, check_trust, record_trust}
use peerc.Crypto.Handshake.Sides.{
  Outcome, text_at, check_signature, agree, concluded, unless_replayed, identified, proven,
}

-- A device that signs with the key that its id stands for.
pub record IsHonest (p : Primitives) (me : DeviceKeypair) : Type 0 where
  pub named : me.device_id ≢ ""
  pub digest : p.compute_device_id me.public_key ≡ me.device_id
  pub proper : p.is_public_key me.public_key ≡ true
  pub key_bytes : All Byte me.public_key
  pub key_there : to_hex me.public_key ≢ ""
  pub sign_bytes : (d : Bytes) → All Byte (me.sign d)
  pub sign_there : (d : Bytes) → to_hex (me.sign d) ≢ ""
  pub verifies : (d : Bytes) → p.verify me.public_key (me.sign d) d ≡ true

-- An X25519 public key.
pub record IsEphemeral (mine : EphemeralKeypair) : Type 0 where
  pub key_bytes : All Byte mine.public_key
  pub key_length : length mine.public_key ≡ 32
  pub key_there : to_hex mine.public_key ≢ ""

module _ (p : Primitives) where
  pub unless_replayed-fresh :
      {A : Type 0} (now : ℕ) (m : Fields) (state : State) (rest : State → Outcome A)
      → (check_and_add state.nonce_cache (text_at "nonce" m) now).1 ≡ true
      → unless_replayed p now m state rest
        ≡ rest (record state {
          nonce_cache = (check_and_add state.nonce_cache (text_at "nonce" m) now).0;
        })
  unfolding unless_replayed
  unless_replayed-fresh now m state rest h = rw (h) refl

  identity-honest :
      (me : DeviceKeypair)
      → IsHonest p me
      → verify_device_identity p me.device_id (to_hex me.public_key) ≡ ([], ok me.public_key)
  unfolding verify_device_identity
  identity-honest me honest = ground (
    arith,
    from_hex-to_hex me.public_key honest.key_bytes,
    honest.digest,
    eq_iff (p.compute_device_id me.public_key) me.device_id,
  )

  pub identified-honest :
      {A : Type 0} (me : DeviceKeypair) (m : Fields) (state : State)
      (rest : Bytes → TrustDecision → Outcome A) (decision : TrustDecision)
      → IsHonest p me
      → text_at "device_id" m ≡ me.device_id
      → text_at "public_key" m ≡ to_hex me.public_key
      → check_trust state.trust_store me.device_id (to_hex me.public_key) ≡ ok decision
      → identified p m state rest ≡ rest me.public_key decision
  unfolding identified
  identified-honest me m state rest decision honest named keyed allowed =
      let identity : verify_device_identity p (text_at "device_id" m) (text_at "public_key" m)
          ≡ ([], ok me.public_key) =
        ap₂ (verify_device_identity p) named keyed ∙ identity-honest me honest in
      let trusted_enough : check_trust state.trust_store (text_at "device_id" m)
            (text_at "public_key" m)
          ≡ ok decision =
        ap₂ (check_trust state.trust_store) named keyed ∙ allowed in
      ground arith

  signature-honest :
      (me : DeviceKeypair) (device_id : String) (transcript : Bytes)
      → IsHonest p me
      → check_signature p device_id me.public_key (to_hex (me.sign transcript)) transcript
        ≡ ([], ok tt)
  unfolding check_signature
  signature-honest me device_id transcript honest =
      rw
        (
          honest.proper,
          from_hex-to_hex (me.sign transcript) (honest.sign_bytes transcript),
          honest.verifies transcript,
        )
        refl

  pub proven-honest :
      {A : Type 0} (now : ℕ) (me : DeviceKeypair) (m : Fields) (pre decision : TrustDecision)
      (transcript : Bytes) (state : State) (rest : State → TrustDecision → Outcome A)
      → IsHonest p me
      → let written =
          record_trust now state.trust_store
            (text_at "device_id" m)
            (text_at "public_key" m)
            (text_at "sender_name" m)
            pre in
        written.1 ≡ ok decision
        → proven p now m me.public_key pre (to_hex (me.sign transcript)) transcript state rest
          ≡ rest (record state { trust_store = written.0 }) decision
  unfolding proven
  proven-honest now me m pre decision transcript state rest honest done =
      let signed = signature-honest me (text_at "device_id" m) transcript honest in ground arith

  agree-honest :
      (mine theirs : EphemeralKeypair) (secret : Bytes)
      → IsEphemeral theirs
      → p.exchange mine.private_key theirs.public_key ≡ some secret
      → agree p mine (to_hex theirs.public_key) ≡ ok secret
  unfolding agree
  agree-honest mine theirs secret theirs_ok same =
      let read = from_hex-to_hex theirs.public_key theirs_ok.key_bytes in
      ground (arith, theirs_ok.key_length)

  pub concluded-agrees :
      (mine theirs : EphemeralKeypair) (m : Fields) (hash secret : Bytes) (decision : TrustDecision)
      → IsEphemeral theirs
      → text_at "ephemeral_key" m ≡ to_hex theirs.public_key
      → p.exchange mine.private_key theirs.public_key ≡ some secret
      → concluded p mine m hash decision
        ≡ ok (record {
          peer_device_id = text_at "device_id" m;
          peer_public_key = text_at "public_key" m;
          peer_name = text_at "sender_name" m;
          shared_secret = secret;
          transcript_hash = hash;
          trust_decision = decision;
        })
  unfolding concluded
  concluded-agrees mine theirs m hash secret decision theirs_ok keyed same =
      let secret_of = ap (agree p mine) keyed ∙ agree-honest mine theirs secret theirs_ok same in
      rw (secret_of) refl
