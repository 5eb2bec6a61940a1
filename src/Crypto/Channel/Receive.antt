-- ===== src/Crypto/Channel/Receive.antt =====
-- What a channel takes from frames that anyone may have sent: each sequence number once, in order.
use peerc.Common.{
  ◌≡◌, refl, ap, ◌⊎◌, inl, inr, ℕ, ◌+◌, ◌<◌, ◌≤◌, List, [], ◌∷◌, map, some, Option-cases, length,
  Result, ok, err, arith, numbered, dec_le, ℕ_discrete,
}
use peerc.Protocol.Bytes.{Bytes, pack}
use peerc.Crypto.Channel.{
  EncryptionError, decryption_failed, replay_or_reorder, sequence_exhausted, Aead, nonce_len,
  max_sequence, SecureChannel, decrypt,
}
use peerc.Crypto.Channel.Sequence.{nonce-fits, nonce-exhausted}

-- A frame as it arrives, with the associated data that the reader passes.
pub record Arrival : Type 0 where
  pub sequence : ℕ
  pub ciphertext : Bytes
  pub associated_data : Bytes

-- A frame that was taken, with its plaintext.
pub record Taken : Type 0 where
  pub arrival : Arrival
  pub plaintext : Bytes

module _ (aead : Aead) where
  open aead use {seal, unseal}

  abbrev pub receive : SecureChannel → Arrival → SecureChannel × Result EncryptionError Bytes
  receive c f = decrypt aead c f.sequence f.ciphertext f.associated_data

  abbrev take_if : Arrival → Result EncryptionError Bytes → List Taken → List Taken
  take_if f (ok p) rest = record { arrival = f; plaintext = p } ∷ rest
  take_if f (err e) rest = rest

  -- The channel after a run of `decrypt`, an error or not.
  unfoldable pub after : SecureChannel → List Arrival → SecureChannel
  after c [] = c
  after c (f ∷ fs) = after (receive c f).0 fs

  -- The frames that the run took.
  unfoldable pub taken : SecureChannel → List Arrival → List Taken
  taken c [] = []
  taken c (f ∷ fs) = take_if f (receive c f).1 (taken (receive c f).0 fs)

  abbrev pub next : SecureChannel → SecureChannel
  next c = record c { expected_recv_sequence = c.expected_recv_sequence + 1 }

  -- The two ways that a call can end.
  abbrev pub Refused : SecureChannel → Arrival → Type 0
  Refused c f = (e : EncryptionError) × (receive c f ≡ (c, err e))

  abbrev pub Accepted : SecureChannel → Arrival → Type 0
  Accepted c f =
      (p : Bytes) × (f.sequence ≡ c.expected_recv_sequence)
      × (f.sequence ≤ max_sequence)
      × (unseal c.session_keys.recv_key (pack nonce_len f.sequence) f.ciphertext f.associated_data
          ≡ some p)
      × (receive c f ≡ (next c, ok p))

  pub receive-cases : (c : SecureChannel) (f : Arrival) → Refused c f ⊎ Accepted c f
  unfolding decrypt
  receive-cases c f = elim (ℕ_discrete f.sequence c.expected_recv_sequence) [
    | no other ↦ inl (replay_or_reorder c.expected_recv_sequence f.sequence, ground arith)
    | yes same ↦ elim (dec_le f.sequence max_sequence) [
      | no full ↦
          inl (
            sequence_exhausted f.sequence,
            ground (arith, nonce-exhausted f.sequence (omega arith)),
          )
      | yes fits ↦
          elim (Option-cases (
            unseal c.session_keys.recv_key (pack nonce_len f.sequence) f.ciphertext
              f.associated_data)) [
                | inl shut ↦ inl (decryption_failed, ground (arith, nonce-fits f.sequence fits))
                | inr (p, opens) ↦
                    inr (p, same, fits, opens, ground (arith, nonce-fits f.sequence fits))
              ]
    ]
  ]

  pub receive-opens :
      (c : SecureChannel) (f : Arrival) (p : Bytes)
      → f.sequence ≡ c.expected_recv_sequence
      → f.sequence ≤ max_sequence
      → unseal c.session_keys.recv_key (pack nonce_len f.sequence) f.ciphertext f.associated_data
        ≡ some p
      → receive c f ≡ (next c, ok p)
  unfolding decrypt
  receive-opens c f p same fits opens = ground (arith, nonce-fits f.sequence fits)

  after-refused :
      (c : SecureChannel) (f : Arrival) (fs : List Arrival)
      → Refused c f
      → after c (f ∷ fs) ≡ after c fs
  unfolding after
  after-refused c f fs (e, h) = rw h

  after-accepted :
      (c : SecureChannel) (f : Arrival) (fs : List Arrival)
      → Accepted c f
      → after c (f ∷ fs) ≡ after (next c) fs
  unfolding after
  after-accepted c f fs (p, same, fits, opens, h) = rw h

  pub taken-refused :
      (c : SecureChannel) (f : Arrival) (fs : List Arrival)
      → Refused c f
      → taken c (f ∷ fs) ≡ taken c fs
  unfolding taken
  taken-refused c f fs (e, h) = rw h

  pub taken-accepted :
      (c : SecureChannel) (f : Arrival) (fs : List Arrival) (a : Accepted c f)
      → taken c (f ∷ fs) ≡ record { arrival = f; plaintext = a.0 } ∷ taken (next c) fs
  unfolding taken
  taken-accepted c f fs (p, same, fits, opens, h) = rw h

  -- Whatever arrives, the frames that are taken are numbered without a gap from the number that the
  -- channel expected, and afterwards it expects the number after the last one.
  taken-numbered :
      (c : SecureChannel) (fs : List Arrival)
      → (map (λ t. t.arrival.sequence) (taken c fs)
          ≡ numbered c.expected_recv_sequence (taken c fs))
        × ((after c fs).expected_recv_sequence ≡ c.expected_recv_sequence + length (taken c fs))
  taken-numbered c [] = unfold taken after in (refl, omega arith)
  taken-numbered c (f ∷ fs) = elim (receive-cases c f) [
    | inl refused ↦
        rw (taken-refused c f fs refused) (rw (after-refused c f fs refused) (taken-numbered c fs))
    | inr accepted ↦
        let (numbers, expected) = taken-numbered (next c) fs in
        rw (taken-accepted c f fs accepted)
          (rw (after-accepted c f fs accepted) (cc (accepted.1, numbers), omega arith))
  ]

  -- A number that is behind is refused.
  stale :
      (c : SecureChannel) (f : Arrival)
      → f.sequence < c.expected_recv_sequence
      → receive c f ≡ (c, err (replay_or_reorder c.expected_recv_sequence f.sequence))
  unfolding decrypt
  stale c f h = ground arith

  -- A frame that was taken once is refused as a replay ever after, with any ciphertext and whatever
  -- arrived in between, and the channel does not change.
  pub replay_refused :
      (c : SecureChannel) (f : Arrival) (fs : List Arrival) (again : Arrival) {p : Bytes}
      → (receive c f).1 ≡ ok p
      → again.sequence ≡ f.sequence
      → receive (after (receive c f).0 fs) again ≡ (
        after (receive c f).0 fs,
        err (replay_or_reorder (after (receive c f).0 fs).expected_recv_sequence again.sequence),
      )
  replay_refused c f fs again taken_once same = elim (receive-cases c f) [
    | inl (e, h) ↦ cc (ap (λ (r : SecureChannel × Result EncryptionError Bytes). r.1) h)
    | inr (p, expected, fits, opens, h) ↦ stale (after (receive c f).0 fs) again (
        omega (
          arith,
          ap (λ (r : SecureChannel × Result EncryptionError Bytes). r.0.expected_recv_sequence) h,
          (taken-numbered (receive c f).0 fs).1,
        ))
  ]
