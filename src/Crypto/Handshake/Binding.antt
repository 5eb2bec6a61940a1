-- ===== src/Crypto/Handshake/Binding.antt =====
-- What the signatures bind.
use peerc.Common.{◌≡◌, ◌≢◌, refl, sym, ℕ, some, [], ◌∷◌, ◌++◌, All, String, arith}
use peerc.Protocol.Bytes.{Bytes}
use peerc.Protocol.Hex.{codes}
use peerc.Protocol.Values.{Value, Fields, text, fields, get}
use peerc.Crypto.Handshake.{Primitives}
use peerc.Crypto.Handshake.Transcript.{
  value_at, newline, signed_fields, compute_responder_transcript,
}

-- Up to the first newline.
split_at_newline :
    (xs ys us vs : Bytes)
    → All (λ (b : ℕ). b ≢ newline) xs
    → All (λ (b : ℕ). b ≢ newline) ys
    → xs ++ newline ∷ us ≡ ys ++ newline ∷ vs
    → (xs ≡ ys) × (us ≡ vs)
split_at_newline [] [] us vs hx hy e = ground arith
split_at_newline [] (y ∷ ys) us vs hx hy e = absurd (hy.0 (ground arith))
split_at_newline (x ∷ xs) [] us vs hx hy e = absurd (hx.0 (ground arith))
split_at_newline (x ∷ xs) (y ∷ ys) us vs hx hy e =
    let tails : xs ++ newline ∷ us ≡ ys ++ newline ∷ vs = ground arith in
    let (same, rest) = split_at_newline xs ys us vs hx.1 hy.1 tails in (ground arith, rest)

drop_prefix : (pre xs ys : Bytes) → pre ++ xs ≡ pre ++ ys → xs ≡ ys
drop_prefix [] xs ys e = e
drop_prefix (b ∷ pre) xs ys e = drop_prefix pre xs ys (ground arith)

-- What a checked handshake message has in the six fields: texts.
pub record SignedFields : Type 0 where
  pub kind : String
  pub device_id : String
  pub public_key : String
  pub ephemeral_key : String
  pub nonce : String
  pub sender_name : String

-- The dict that is written as JSON.
abbrev pub dict_of : SignedFields → Fields
dict_of s = fields (
    ("type", text s.kind)
    ∷ ("device_id", text s.device_id)
    ∷ ("public_key", text s.public_key)
    ∷ ("ephemeral_key", text s.ephemeral_key)
    ∷ ("nonce", text s.nonce)
    ∷ ("sender_name", text s.sender_name)
    ∷ [])

-- The message has these texts in its six fields.
abbrev pub HasFields : Fields → SignedFields → Type 0
HasFields m s =
    (get "type" m ≡ some (text s.kind))
    × (get "device_id" m ≡ some (text s.device_id))
    × (get "public_key" m ≡ some (text s.public_key))
    × (get "ephemeral_key" m ≡ some (text s.ephemeral_key))
    × (get "nonce" m ≡ some (text s.nonce))
    × (get "sender_name" m ≡ some (text s.sender_name))

value_at-get : (name : String) (m : Fields) {v : Value} → get name m ≡ some v → value_at name m ≡ v
value_at-get name m h = ground arith

-- What is signed of a message is what it has in the six fields, each under its own name.
signed_fields-dict_of :
    (m : Fields) (s : SignedFields) → HasFields m s → signed_fields m ≡ dict_of s
unfolding signed_fields
signed_fields-dict_of m s (kind, device, key, ephemeral, nonce, name) =
    rw
      (
        value_at-get "type" m kind,
        value_at-get "device_id" m device,
        value_at-get "public_key" m key,
        value_at-get "ephemeral_key" m ephemeral,
        value_at-get "nonce" m nonce,
        value_at-get "sender_name" m name,
        signed_fields,
      )
      refl

-- Where `json.dumps` gives different texts for different dicts of this form, and no raw newline, a
-- transcript determines both messages: when a responder's signature covers two handshakes whose
-- messages have texts in the six fields, the messages of the two have the same type, device id, key,
-- ephemeral key, nonce and name.
pub responder_transcript_binds :
    (p : Primitives)
    → (distinct : (s t : SignedFields)
        → p.canonical_json_bytes (dict_of s) ≡ p.canonical_json_bytes (dict_of t)
        → s ≡ t)
    → (one_line : (s : SignedFields)
        → All (λ (b : ℕ). b ≢ newline) (p.canonical_json_bytes (dict_of s)))
    → (init_msg init_msg' resp_msg resp_msg' : Fields) (i i' r r' : SignedFields)
    → HasFields init_msg i
    → HasFields init_msg' i'
    → HasFields resp_msg r
    → HasFields resp_msg' r'
    → compute_responder_transcript p init_msg resp_msg
      ≡ compute_responder_transcript p init_msg' resp_msg'
    → (i ≡ i') × (r ≡ r')
unfolding compute_responder_transcript
responder_transcript_binds p distinct one_line init_msg init_msg' resp_msg resp_msg' i i' r r' hi
      hi' hr hr' e =
    let bodies = drop_prefix (codes "peerc-v2-handshake-responder\n") _ _ e in
    let json = λ (s : SignedFields). p.canonical_json_bytes (dict_of s) in
    let texts : json i ++ newline ∷ json r ≡ json i' ++ newline ∷ json r' =
      rw
        (
          sym (signed_fields-dict_of init_msg i hi),
          sym (signed_fields-dict_of init_msg' i' hi'),
          sym (signed_fields-dict_of resp_msg r hr),
          sym (signed_fields-dict_of resp_msg' r' hr'),
        )
        bodies in
    let (first, second) =
      split_at_newline (json i) (json i') _ _ (one_line i) (one_line i') texts in
    (distinct i i' first, distinct r r' second)
