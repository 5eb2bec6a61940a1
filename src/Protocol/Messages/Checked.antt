-- ===== src/Protocol/Messages/Checked.antt =====
-- What a handler may rely on of a message that passed the check.
use peerc.Common.{
  ◌≡◌, refl, ◌↔◌, ℕ, ◌≤◌, inl, inr, List, [], ◌∷◌, All, true, false, Option, none, some, String,
  str_eq, ok, arith, Bool-cases, sym, ◌∙◌, ◌>>◌, zero, suc, Result-cases,
}
use peerc.Protocol.Values.{
  ℤ, pos, negsuc, Value, text, object, Fields, get, has, is_filled, is_text, int_of,
}
use peerc.Protocol.Schema.{required_fields, missing, min_supported_version, Check, filled}
use peerc.Protocol.Messages.{
  check_version, check_known, check_fields, validate_message, check_handshake,
}

none_missing :
    (names : List String) (m : Fields)
    → missing names m ≡ []
    → All (λ (name : String). has name m ≡ true) names
unfolding missing
none_missing [] m h = tt
none_missing (name ∷ names) m h = elim (Bool-cases (has name m)) [
  | inl there ↦ (there, none_missing names m (ground arith))
  | inr absent ↦ absurd (ground arith)
]

known_passes :
    (m : Fields) (t : String) (names : List String)
    → get "type" m ≡ some (text t)
    → required_fields t ≡ some names
    → validate_message (object m) ≡ ok tt
    → (missing names m ≡ []) × (check_fields t m ≡ ok tt)
unfolding validate_message
known_passes m t names typed known h = ground arith

-- A message of a known type that passed has every field that the type requires.
pub validated-has-required :
    (m : Fields) (t : String) (names : List String)
    → get "type" m ≡ some (text t)
    → required_fields t ≡ some names
    → validate_message (object m) ≡ ok tt
    → All (λ (name : String). has name m ≡ true) names
validated-has-required m t names typed known h =
    none_missing names m (known_passes m t names typed known h).0

-- The version is missing, or an int that is still supported.
abbrev pub Supported : Option Value → Type 0
Supported none = Unit
Supported (some v) = (n : ℕ) × (int_of (some v) ≡ some (pos n)) × (min_supported_version ≤ n)

supported :
    (v : Value) (z : Option ℤ)
    → int_of (some v) ≡ z
    → check_version (some v) ≡ ok tt
    → (n : ℕ) × (int_of (some v) ≡ some (pos n)) × (min_supported_version ≤ n)
unfolding check_version
supported v none e h = absurd (ground arith)
supported v (some (negsuc n)) e h = absurd (ground arith)
supported v (some (pos n)) e h = (n, e, ground arith)

version-Supported :
    (v : Option Value)
    → (check_version v ≡ ok tt → Supported v) × (Supported v → check_version v ≡ ok tt)
unfolding check_version
version-Supported none = (λ h. tt, λ h. refl)
version-Supported (some v) =
    (λ h. supported v (int_of (some v)) refl h, λ (n, e, old). ground arith)

abbrev pub HandshakeFields : Fields → Type 0
HandshakeFields m =
    (is_filled (get "device_id" m) ≡ true)
    × (is_filled (get "public_key" m) ≡ true)
    × (is_filled (get "ephemeral_key" m) ≡ true)
    × (is_filled (get "nonce" m) ≡ true)
    × (is_text (get "sender_name" m) ≡ true)

handshake_missing :
    (m : Fields)
    → HandshakeFields m
    → is_filled (get "signature" m) ≡ true
    → missing
        ("device_id" ∷ "public_key" ∷ "ephemeral_key" ∷ "nonce" ∷ "sender_name" ∷ "signature" ∷ [])
        m
      ≡ []
unfolding missing
handshake_missing m h k = ground arith

-- The checks of a handshake response, without those of the other types.
abbrev response_checks : Fields → Check
response_checks m =
    check_handshake "handshake_response" m >> filled "handshake_response" "signature" m

-- A check followed by checks of other types, which pass.
and_others : ℕ → Check → Check
and_others zero check = check
and_others (suc n) check = and_others n check >> ok tt

and_others-same : (n : ℕ) (check : Check) → and_others n check ≡ check
unfolding and_others
and_others-same zero check = refl
and_others-same (suc n) check = elim (Result-cases check) [
  | inl (e, bad) ↦ rw (and_others-same n check, bad) refl
  | inr (u, fine) ↦ rw (and_others-same n check, fine) refl
]

fields_of_response :
    (m : Fields) → check_fields "handshake_response" m ≡ and_others 13 (response_checks m)
unfolding check_fields check_handshake and_others
fields_of_response m = refl

response_passed :
    (m : Fields)
    → response_checks m ≡ ok tt
    → HandshakeFields m × (is_filled (get "signature" m) ≡ true)
unfolding check_handshake
response_passed m h = ground arith

response_passes :
    (m : Fields)
    → HandshakeFields m
    → is_filled (get "signature" m) ≡ true
    → response_checks m ≡ ok tt
unfolding check_handshake
response_passes m (named, keyed, ephemeral, nonce, sender) signed =
    rw (named, keyed, ephemeral, nonce, sender, signed) refl

response_fields :
    (m : Fields)
    → (check_fields "handshake_response" m ≡ ok tt
        → HandshakeFields m × (is_filled (get "signature" m) ≡ true))
      × (HandshakeFields m
          → is_filled (get "signature" m) ≡ true
          → check_fields "handshake_response" m ≡ ok tt)
response_fields m = (
  λ h.
      response_passed m
        (sym (and_others-same 13 (response_checks m)) ∙ sym (fields_of_response m) ∙ h),
  λ h k. fields_of_response m ∙ and_others-same 13 (response_checks m) ∙ response_passes m h k,
)

known_checked :
    (m : Fields) (t : String) (names : List String)
    → missing names m ≡ []
    → check_fields t m ≡ ok tt
    → check_known t m (some names) ≡ ok tt
unfolding check_known
known_checked m t names all checks = ground arith

passes :
    (m : Fields) (t : String) (names : List String)
    → get "type" m ≡ some (text t)
    → str_eq t "" ≡ false
    → required_fields t ≡ some names
    → check_version (get "version" m) ≡ ok tt
    → missing names m ≡ []
    → check_fields t m ≡ ok tt
    → validate_message (object m) ≡ ok tt
unfolding validate_message
passes m t names typed named known version all checks =
    rw (typed, named, known, version) (known_checked m t names all checks)

supported_if_passes :
    (m : Fields) → validate_message (object m) ≡ ok tt → check_version (get "version" m) ≡ ok tt
unfolding validate_message
supported_if_passes m h = ground arith

response_known :
    required_fields "handshake_response"
    ≡ some
        ("device_id" ∷ "public_key" ∷ "ephemeral_key" ∷ "nonce" ∷ "sender_name" ∷ "signature" ∷ [])
unfolding required_fields
response_known = refl

-- A handshake response passes the check exactly when its version is missing or supported, its ids,
-- keys, nonce and signature are texts that are not empty, and the sender's name is a text.
pub handshake_response-iff-checked :
    (m : Fields)
    → get "type" m ≡ some (text "handshake_response")
    → (validate_message (object m) ≡ ok tt)
      ↔ (Supported (get "version" m) × HandshakeFields m × (is_filled (get "signature" m) ≡ true))
handshake_response-iff-checked m typed = (
  λ h.
      let passed = (known_passes m "handshake_response" _ typed response_known h).1 in
      let (named, signed) = (response_fields m).0 passed in
      ((version-Supported (get "version" m)).0 (supported_if_passes m h), named, signed),
  λ (since, named, signed).
      passes m "handshake_response" _ typed refl response_known
        ((version-Supported (get "version" m)).1 since) (handshake_missing m named signed)
        ((response_fields m).1 named signed),
)
