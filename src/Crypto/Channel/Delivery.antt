-- ===== src/Crypto/Channel/Delivery.antt =====
-- From one end of a session to the other, over a network that may drop, repeat, reorder and alter.
use peerc.Common.{
  ◌≡◌, refl, sym, ap, ◌∙◌, ◌⊎◌, inl, inr, ℕ, suc, ◌+◌, ◌≤◌, List, [], ◌∷◌, map, none, some, length,
  get_elem?, take, drop, take-drop-suc, All, arith,
}
use peerc.Protocol.Bytes.{Bytes, pack}
use peerc.Crypto.Channel.{Aead, nonce_len, max_sequence, EncryptedFrame, SecureChannel}
use peerc.Crypto.Channel.Sequence.{sent, sent-fits}
use peerc.Crypto.Channel.Receive.{
  Arrival, taken, next, receive-cases, receive-opens, Accepted, taken-refused, taken-accepted,
}

module _ (aead : Aead) (key ad : Bytes) (start : ℕ) (messages : List Bytes) where
  open aead use {seal, unseal, unseal-seal}

  -- The i-th frame of the sender, which began at the number `start`.
  abbrev pub genuine : ℕ → Bytes → Arrival
  genuine i m = record {
    sequence = start + i;
    ciphertext = seal key (pack nonce_len (start + i)) m ad;
    associated_data = ad;
  }

  -- No forgery: an arrival either does not open under its number's nonce, or is a frame of the
  -- sender's, sent once or many times.
  abbrev pub NotForged : Arrival → Type 0
  NotForged f =
      (f.associated_data ≡ ad)
      × ((unseal key (pack nonce_len f.sequence) f.ciphertext ad ≡ none)
          ⊎ ((i : ℕ) × (m : Bytes) × (get_elem? messages i ≡ some m) × (f ≡ genuine i m)))

  -- A genuine frame that is taken is the next one, and opens to the sender's message.
  opened :
      (c : SecureChannel) (n : ℕ) (f : Arrival) (accepted : Accepted aead c f)
      → c.session_keys.recv_key ≡ key
      → c.expected_recv_sequence ≡ start + n
      → NotForged f
      → get_elem? messages n ≡ some accepted.0
  opened c n f (p, same, fits, opens, h) hk hn (ha, inl shut) = cc
  opened c n f (p, same, fits, opens, h) hk hn (ha, inr (i, m, at_i, is_genuine)) =
      let number : f.sequence ≡ start + i = ap (λ a. a.sequence) is_genuine in
      let place : i ≡ n = omega arith in
      let text : f.ciphertext ≡ seal key (pack nonce_len (start + i)) m ad =
        ap (λ a. a.ciphertext) is_genuine in
      let inside : p ≡ m = cc (unseal-seal key (pack nonce_len (start + i)) m ad) in cc

  delivered :
      (c : SecureChannel) (n : ℕ) (arrivals : List Arrival)
      → c.session_keys.recv_key ≡ key
      → c.expected_recv_sequence ≡ start + n
      → All NotForged arrivals
      → (k : ℕ) × (map (λ t. t.plaintext) (taken aead c arrivals) ≡ take k (drop n messages))
  delivered c n [] hk hn ok_all = (0, unfold taken in refl)
  delivered c n (f ∷ fs) hk hn all = elim (receive-cases aead c f) [
    | inl refused ↦
        let (k, same) = delivered c n fs hk hn all.1 in
        (k, ap (map (λ t. t.plaintext)) (taken-refused aead c f fs refused) ∙ same)
    | inr accepted ↦
        let (k, same) = delivered (next aead c) (suc n) fs hk (omega arith) all.1 in
        (
          suc k,
          ap (map (λ t. t.plaintext)) (taken-accepted aead c f fs accepted)
              ∙ ap (λ l. accepted.0 ∷ l) same
              ∙ sym (take-drop-suc k n messages (opened c n f accepted hk hn all.0)),
        )
  ]

  -- The receiver's plaintexts are a prefix of the sender's messages, whatever a network that cannot
  -- forge does to the frames: nothing is taken twice, out of order, or after a gap. Both ends agree
  -- on the key and on the number of the first frame, and use one associated data.
  pub delivered-prefix :
      (c : SecureChannel) (arrivals : List Arrival)
      → c.session_keys.recv_key ≡ key
      → c.expected_recv_sequence ≡ start
      → All NotForged arrivals
      → (k : ℕ) × (map (λ t. t.plaintext) (taken aead c arrivals) ≡ take k messages)
  delivered-prefix c arrivals hk hs all = delivered c 0 arrivals hk (omega arith) all

module _ (aead : Aead) (ad : Bytes) where
  abbrev pub arrive : EncryptedFrame → Arrival
  arrive f = record { sequence = f.sequence; ciphertext = f.ciphertext; associated_data = ad }

  abbrev pub calls : List Bytes → List (Bytes × Bytes)
  calls = map (λ m. (m, ad))

  accepted_first :
      (a b : SecureChannel) (m : Bytes)
      → a.session_keys.send_key ≡ b.session_keys.recv_key
      → a.send_sequence ≡ b.expected_recv_sequence
      → a.send_sequence ≤ max_sequence
      → Accepted aead b (record {
        sequence = a.send_sequence;
        ciphertext = aead.seal a.session_keys.send_key (pack nonce_len a.send_sequence) m ad;
        associated_data = ad;
      })
  accepted_first a b m keys numbers fits =
      let nonce = pack nonce_len a.send_sequence in
      let text = aead.seal a.session_keys.send_key nonce m ad in
      let opens : aead.unseal b.session_keys.recv_key nonce text ad ≡ some m =
        cc (aead.unseal-seal a.session_keys.send_key nonce m ad) in
      (m, numbers, fits, opens, receive-opens aead b _ m numbers fits opens)

  -- Over a network that delivers every frame in order, all that one end sends is what the other end
  -- receives, as long as the sequence numbers last: the two ends stay in step.
  pub received-sent :
      (a b : SecureChannel) (messages : List Bytes)
      → a.session_keys.send_key ≡ b.session_keys.recv_key
      → a.send_sequence ≡ b.expected_recv_sequence
      → a.send_sequence + length messages ≤ max_sequence + 1
      → map (λ t. t.plaintext) (taken aead b (map arrive (sent aead a (calls messages)))) ≡ messages
  unfolding accepted_first
  received-sent a b [] keys numbers fits = unfold sent taken in refl
  received-sent a b (m ∷ ms) keys numbers fits =
      let a' = record a { send_sequence = a.send_sequence + 1 } in
      let accepted = accepted_first a b m keys numbers (omega arith) in
      rw (sent-fits aead a m ad (calls ms) (omega arith)) (
        rw (taken-accepted aead b _ (map arrive (sent aead a' (calls ms))) accepted)
          (ap (λ l. m ∷ l) (received-sent a' (next aead b) ms keys (omega arith) (omega arith))))
