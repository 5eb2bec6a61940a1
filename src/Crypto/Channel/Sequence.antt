-- ===== src/Crypto/Channel/Sequence.antt =====
-- The sequence numbers of a channel: nonces never repeat, and frames are taken once and in order.
use peerc.Common.{
  ◌≡◌, refl, sym, ap, ◌∙◌, ◌⊎◌, inl, inr, ℕ, zero, suc, ◌+◌, ◌<◌, ◌≤◌, List, [], ◌∷◌, some, Result,
  ok, err, arith, get_elem?, dec_le,
}
use peerc.Protocol.Bytes.{Bytes, pack, unpack, unpack-pack}
use peerc.Crypto.Channel.{
  EncryptionError, sequence_exhausted, Aead, nonce_len, max_sequence, construct_nonce,
  EncryptedFrame, SecureChannel, encrypt,
}

-- A sequence number has a nonce, of twelve bytes, exactly if it fits.
pub nonce-fits : (i : ℕ) → i ≤ max_sequence → construct_nonce i ≡ ok (pack nonce_len i)
unfolding construct_nonce
nonce-fits i h = ground arith

pub nonce-exhausted : (i : ℕ) → max_sequence < i → construct_nonce i ≡ err (sequence_exhausted i)
unfolding construct_nonce
nonce-exhausted i h = ground arith

nonce-ok :
    (i : ℕ) {n : Bytes} → construct_nonce i ≡ ok n → (i ≤ max_sequence) × (n ≡ pack nonce_len i)
unfolding construct_nonce
nonce-ok i h = ground arith

nonce-injective :
    (i j : ℕ) → i ≤ max_sequence → j ≤ max_sequence → construct_nonce i ≡ construct_nonce j → i ≡ j
nonce-injective i j hi hj e =
    let same : pack nonce_len i ≡ pack nonce_len j = cc (nonce-fits i hi, nonce-fits j hj, e) in
    sym (unpack-pack nonce_len i (omega arith))
    ∙ ap unpack same
    ∙ unpack-pack nonce_len j (omega arith)

module _ (aead : Aead) where
  open aead use {seal, unseal}

  -- What a run of `encrypt` leaves on the wire, one frame for each call that does not raise.
  abbrev pub keep :
      SecureChannel × Result EncryptionError EncryptedFrame
      → (SecureChannel → List EncryptedFrame)
      → List EncryptedFrame
  keep (channel, ok frame) rest = frame ∷ rest channel
  keep (channel, err e) rest = rest channel

  unfoldable pub sent : SecureChannel → List (Bytes × Bytes) → List EncryptedFrame
  sent channel [] = []
  sent channel ((plaintext, associated_data) ∷ calls) =
      keep (encrypt aead channel plaintext associated_data) (λ after. sent after calls)

  pub encrypt-fits :
      (c : SecureChannel) (p a : Bytes)
      → c.send_sequence ≤ max_sequence
      → encrypt aead c p a ≡ (
        record c { send_sequence = c.send_sequence + 1 },
        ok (record {
          sequence = c.send_sequence;
          ciphertext = seal c.session_keys.send_key (pack nonce_len c.send_sequence) p a;
        }),
      )
  unfolding encrypt
  encrypt-fits c p a h = rw (nonce-fits c.send_sequence h)

  pub sent-fits :
      (c : SecureChannel) (p a : Bytes) (calls : List (Bytes × Bytes))
      → c.send_sequence ≤ max_sequence
      → sent c ((p, a) ∷ calls)
        ≡ record {
          sequence = c.send_sequence;
          ciphertext = seal c.session_keys.send_key (pack nonce_len c.send_sequence) p a;
        }
          ∷ sent (record c { send_sequence = c.send_sequence + 1 }) calls
  unfolding sent
  sent-fits c p a calls h = rw (encrypt-fits c p a h)

  pub encrypt-exhausted :
      (c : SecureChannel) (p a : Bytes)
      → max_sequence < c.send_sequence
      → encrypt aead c p a ≡ (c, err (sequence_exhausted c.send_sequence))
  unfolding encrypt
  encrypt-exhausted c p a h = rw (nonce-exhausted c.send_sequence h)

  -- The head of a run, whether its frame is asked for or a later one.
  first_or_later :
      (f : EncryptedFrame) (fs : List EncryptedFrame) (i : ℕ) {g : EncryptedFrame}
      → get_elem? (f ∷ fs) i ≡ some g
      → ((i ≡ 0) × (f ≡ g)) ⊎ ((j : ℕ) × (i ≡ suc j) × (get_elem? fs j ≡ some g))
  first_or_later f fs zero h = inl (refl, cc h)
  first_or_later f fs (suc j) h = inr (j, refl, h)

  sent-sequence :
      (c : SecureChannel) (calls : List (Bytes × Bytes)) (i : ℕ) {f : EncryptedFrame}
      → get_elem? (sent c calls) i ≡ some f
      → (f.sequence ≡ c.send_sequence + i) × (f.sequence ≤ max_sequence)
  unfolding sent
  sent-sequence c [] i h = cc
  sent-sequence c ((p, a) ∷ calls) i h = elim (dec_le c.send_sequence max_sequence) [
    | yes fits ↦
        let after = record c { send_sequence = c.send_sequence + 1 } in
        elim (first_or_later _ (sent after calls) i (rw (encrypt-fits c p a fits) at h)) [
          | inl (at_head, same) ↦ ground arith
          | inr (j, later, found) ↦ omega (arith, sent-sequence after calls j found)
        ]
    | no full ↦ sent-sequence c calls i (rw (encrypt-exhausted c p a (omega arith)) at h)
  ]

  -- The frame at i is the plaintext of the call at i, sealed with the channel's key under the nonce
  -- of the number that the frame carries.
  abbrev pub IsSealed : SecureChannel → List (Bytes × Bytes) → ℕ → EncryptedFrame → Type 0
  IsSealed c calls i f =
      (p a nonce : Bytes) × (get_elem? calls i ≡ some (p, a))
      × (construct_nonce f.sequence ≡ ok nonce)
      × (f.ciphertext ≡ seal c.session_keys.send_key nonce p a)

  sent-IsSealed :
      (c : SecureChannel) (calls : List (Bytes × Bytes)) (i : ℕ) {f : EncryptedFrame}
      → get_elem? (sent c calls) i ≡ some f
      → IsSealed c calls i f
  unfolding sent
  sent-IsSealed c [] i h = cc
  sent-IsSealed c ((p, a) ∷ calls) i {f} h = elim (dec_le c.send_sequence max_sequence) [
    | yes fits ↦
        let after = record c { send_sequence = c.send_sequence + 1 } in
        elim (first_or_later _ (sent after calls) i (rw (encrypt-fits c p a fits) at h)) [
          | inl (at_head, same) ↦ (
            p,
            a,
            pack nonce_len c.send_sequence,
            rw (at_head) refl,
            rw (sym same) (nonce-fits c.send_sequence fits),
            rw (sym same) refl,
          )
          | inr (j, later, found) ↦
              let (q, b, nonce, call, made, sealed) = sent-IsSealed after calls j found in
              (q, b, nonce, rw (later) call, made, sealed)
        ]
    | no full ↦
        let (at_i, fits_i) = sent-sequence c ((p, a) ∷ calls) i h in
        absurd (full (omega (arith, at_i, fits_i)))
  ]

  -- Over the whole life of a channel no nonce is used for two frames: each frame that a run of
  -- `encrypt` puts on the wire is the plaintext of its call sealed with the channel's key under the
  -- nonce of the frame's number, and where the i-th and the j-th have the same nonce, i is j.
  pub nonces_unique :
      (c : SecureChannel) (calls : List (Bytes × Bytes)) (i j : ℕ) {f g : EncryptedFrame}
      → get_elem? (sent c calls) i ≡ some f
      → get_elem? (sent c calls) j ≡ some g
      → construct_nonce f.sequence ≡ construct_nonce g.sequence
      → IsSealed c calls i f × IsSealed c calls j g × (i ≡ j)
  nonces_unique c calls i j {f} {g} p q same =
      let (at_i, fits_i) = sent-sequence c calls i p in
      let (at_j, fits_j) = sent-sequence c calls j q in
      (
        sent-IsSealed c calls i p,
        sent-IsSealed c calls j q,
        omega (arith, nonce-injective f.sequence g.sequence fits_i fits_j same),
      )
