-- ===== src/Crypto/Handshake/Refused.antt =====
-- A revoked device never gets through a handshake again.
use mathlib.Core.Path.{ap₂}
use peerc.Common.{
  ◌≡◌, ◌≢◌, ◌⊎◌, sym, ◌∙◌, inl, inr, ℕ, List, Bool, Option, some, String, str_eq, ok, arith,
  Bool-cases,
}
use peerc.Common.Dicts.{lookup}
use peerc.Protocol.Values.{Fields}
use peerc.Trust.Store.{TrustStore, TrustedDevice, TransitionCertificate, TrustDecision}
use peerc.Trust.Store.{TrustStatus}
use peerc.Trust.Store.Lasting.{Operation, perform_all, revoked_for_good}
use peerc.Crypto.Handshake.{
  Primitives, DeviceKeypair, EphemeralKeypair, HandshakeResult, Arrival, State,
}
use peerc.Crypto.Handshake.Trusting.{judged, check_trust}
use peerc.Crypto.Handshake.Sides.{
  Pending, text_at, initiator_receive, responder_receive, responder_finish,
}
use peerc.Crypto.Handshake.Proven.{initiator_authenticates}
use peerc.Crypto.Handshake.Responding.{responder_authenticates}

refused :
    (verify : TransitionCertificate → Bool) (store : TrustStore) (os : List Operation)
    (id key : String) (d : TrustedDevice) (decision : TrustDecision)
    → lookup id store.devices ≡ some d
    → d.status ≡ TrustStatus.revoked
    → check_trust (some (perform_all verify store os)) id key ≡ ok decision
    → ⊥
unfolding check_trust judged
refused verify store os id key d decision known gone h =
    let answer = revoked_for_good verify store os id key d known gone in
    elim (Bool-cases (str_eq d.public_key key)) [
      | inl same ↦ ground arith
      | inr other ↦ ground arith
    ]

module _ (p : Primitives) (verify : TransitionCertificate → Bool) where
  refused_at :
      (store : TrustStore) (os : List Operation) (d : TrustedDevice) (id : String)
      → lookup id store.devices ≡ some d
      → d.status ≡ TrustStatus.revoked
      → (state : State) → state.trust_store ≡ some (perform_all verify store os)
      → (m : Fields) (decision : TrustDecision) → text_at "device_id" m ≡ id
      → check_trust state.trust_store (text_at "device_id" m) (text_at "public_key" m) ≡ ok decision
      → ⊥
  refused_at store os d id known gone state has m decision same allowed =
      refused verify store os id (text_at "public_key" m) d decision known gone (
        sym (
          ap₂ (λ (s : Option TrustStore) (i : String). check_trust s i (text_at "public_key" m)) has
            same)
        ∙ allowed)

  -- A device that was revoked is never the peer of a completed handshake, of either side: whatever
  -- operations on the trust store follow the revocation, whatever key it shows, and whatever arrives.
  pub revoked_never_completes :
      (store : TrustStore) (os : List Operation) (d : TrustedDevice) (id : String)
      → lookup id store.devices ≡ some d
      → d.status ≡ TrustStatus.revoked
      → (state : State) → state.trust_store ≡ some (perform_all verify store os)
      → (now later : ℕ) (me : DeviceKeypair) (mine : EphemeralKeypair) (init_msg : Fields)
        (nonce name : String) (first second : Arrival) (held : Pending) (after : State)
        (r : HandshakeResult)
      → ((initiator_receive p now me mine init_msg state first).result ≡ ok r)
        ⊎ (((responder_receive p now me mine nonce name state first).result ≡ ok held)
            × ((responder_finish p later mine held after second).result ≡ ok r))
      → r.peer_device_id ≢ id
  revoked_never_completes store os d id known gone state has now later me mine init_msg nonce name
        first second held after r (inl h) named =
      let (m, key, decision, _, _, (_, _, allowed), _, peer, _) =
        initiator_authenticates p now me mine init_msg state first r h in
      refused_at store os d id known gone state has m decision (sym peer ∙ named) allowed
  revoked_never_completes store os d id known gone state has now later me mine init_msg nonce name
        first second held after r (inr (h, k)) named =
      let (m, n, key, decision, _, _, _, (_, _, allowed), _, peer, _) =
        responder_authenticates p now later me mine nonce name state after first second held r h
          k in
      refused_at store os d id known gone state has m decision (sym peer ∙ named) allowed
