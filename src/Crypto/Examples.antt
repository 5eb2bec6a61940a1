-- ===== src/Crypto/Examples.antt =====
-- A session over a toy cipher, which marks what it sealed, and a replayed handshake.
use peerc.Common.{
  ◌≡◌, refl, inl, inr, ℕ, zero, suc, List, [], ◌∷◌, map, false, Option, none, some, length, take,
  replicate, ◌==◌, if◌then◌else◌, err, All, arith, ap,
}
use peerc.Common.Dicts.{lookup, keep_if}
use peerc.Protocol.Bytes.{Bytes, pack}
use peerc.Crypto.Kdf.{SessionKeys, Hkdf, Info, init_to_resp, resp_to_init, session}
use peerc.Crypto.Channel.{Aead, SecureChannel, replay_or_reorder, construct_nonce, encrypt, decrypt}
use peerc.Crypto.Channel.Sequence.{sent, IsSealed, nonces_unique}
use peerc.Crypto.Channel.Receive.{Arrival, receive, after, taken, replay_refused}
use peerc.Crypto.Channel.Delivery.{NotForged, delivered-prefix, arrive, calls, received-sent}
use peerc.Crypto.Nonces as Nonces
use peerc.Crypto.Nonces.{NonceCache, check_and_add, nonce_refused_while_live}

abbrev info_number : Info → ℕ
info_number init_to_resp = 1
info_number resp_to_init = 2
info_number session = 3

length-replicate : (n a : ℕ) → length (replicate n a) ≡ n
length-replicate zero a = refl
length-replicate (suc n) a = ap suc (length-replicate n a)

abbrev toy_hkdf : Hkdf
toy_hkdf = record {
  expand = λ ikm salt info len. replicate len (info_number info);
  length-expand = λ ikm salt info len. length-replicate len (info_number info);
}

abbrev toy_unseal : Bytes → Option Bytes
toy_unseal [] = none
toy_unseal (mark ∷ p) = if mark == 7 then some p else none

abbrev toy : Aead
toy = record {
  seal = λ k n p a. 7 ∷ p;
  unseal = λ k n c a. toy_unseal c;
  unseal-seal = λ k n p a. refl;
}

abbrev secret : Bytes
secret = replicate 32 9

abbrev initiator : SessionKeys
initiator = record {
  send_key = replicate 32 1;
  recv_key = replicate 32 2;
  session_id = replicate 16 3;
}

abbrev responder : SessionKeys
responder = record {
  send_key = replicate 32 2;
  recv_key = replicate 32 1;
  session_id = replicate 16 3;
}

abbrev left : SecureChannel
left = record { session_keys = initiator; send_sequence = 0; expected_recv_sequence = 0 }

abbrev right : SecureChannel
right = record { session_keys = responder; send_sequence = 0; expected_recv_sequence = 0 }

abbrev messages : List Bytes
messages = (10 ∷ []) ∷ (20 ∷ 21 ∷ []) ∷ []

nonces_unique_example :
    IsSealed toy left
      (calls toy [] messages)
      1
      (record { sequence = 1; ciphertext = 7 ∷ 20 ∷ 21 ∷ [] })
    × IsSealed toy left
        (calls toy [] messages)
        1
        (record { sequence = 1; ciphertext = 7 ∷ 20 ∷ 21 ∷ [] })
    × ◌≡◌ {A = ℕ} 1 1
unfolding sent encrypt construct_nonce pack
nonces_unique_example =
    nonces_unique toy left (calls toy [] messages) 1 1
      {f = record { sequence = 1; ciphertext = 7 ∷ 20 ∷ 21 ∷ [] }}
      {g = record { sequence = 1; ciphertext = 7 ∷ 20 ∷ 21 ∷ [] }} refl refl refl

abbrev first : Arrival
first = record { sequence = 0; ciphertext = 7 ∷ 10 ∷ []; associated_data = [] }

-- Altered on the way.
abbrev altered : Arrival
altered = record { sequence = 1; ciphertext = 8 ∷ 20 ∷ 21 ∷ []; associated_data = [] }

abbrev second : Arrival
second = record { sequence = 1; ciphertext = 7 ∷ 20 ∷ 21 ∷ []; associated_data = [] }

-- The first frame twice, the second altered, then itself, then the first once more.
abbrev arrivals : List Arrival
arrivals = first ∷ first ∷ altered ∷ second ∷ first ∷ []

replay_refused_example :
    let now = after toy (receive toy right first).0 (altered ∷ second ∷ []) in
    receive toy now first ≡ (now, err (replay_or_reorder now.expected_recv_sequence 0))
unfolding decrypt construct_nonce
replay_refused_example = replay_refused toy right first (altered ∷ second ∷ []) first refl refl

arrivals-NotForged : All (NotForged toy initiator.send_key [] 0 messages) arrivals
arrivals-NotForged = (
  (refl, inr (0, 10 ∷ [], refl, refl)),
  (
    (refl, inr (0, 10 ∷ [], refl, refl)),
    (
      (refl, inl refl),
      ((refl, inr (1, 20 ∷ 21 ∷ [], refl, refl)), ((refl, inr (0, 10 ∷ [], refl, refl)), tt)),
    ),
  ),
)

delivered-prefix_example :
    (k : ℕ) × (map (λ t. t.plaintext) (taken toy right arrivals) ≡ take k messages)
delivered-prefix_example =
    delivered-prefix toy initiator.send_key [] 0 messages right arrivals refl refl
      arrivals-NotForged

received-sent_example :
    map
      (λ t. t.plaintext)
      (taken toy right (map (arrive toy []) (sent toy left (calls toy [] messages))))
    ≡ messages
received-sent_example = received-sent toy [] left right messages refl refl (omega arith)

abbrev no_nonces : NonceCache
no_nonces = record { ttl = 300; seen = [] }

nonce_refused_while_live_example :
    (check_and_add
      (Nonces.after (check_and_add no_nonces "6f1c" 1000).0 (("77aa", 1100) ∷ []))
      "6f1c"
      1300).1
    ≡ false
unfolding check_and_add lookup keep_if
nonce_refused_while_live_example =
    nonce_refused_while_live no_nonces "6f1c" 1000 1300 (("77aa", 1100) ∷ []) refl (omega arith)
      (omega arith)
