-- ===== src/Protocol/Bytes.antt =====
-- Python's `bytes` as a list of numbers below 256, and the big-endian integers of `struct`.
use native.Mathlib.Nat.{pow-suc, div-div-eq-div-mul, div-eq_of_lt, mul-add-div_right}
use mathlib.Core.Path.{ap₂}
use peerc.Common.{
  ◌≡◌, refl, sym, ap, ◌∙◌, ℕ, zero, suc, ◌+◌, ◌*◌, ◌/◌, ◌%◌, ◌^◌, ◌<◌, List, [], ◌∷◌, ◌++◌, All,
  length, length-append, arith,
}

abbrev pub Byte : ℕ → Type 0
Byte b = b < 256

abbrev pub Bytes : Type 0
Bytes = List ℕ

-- `struct.pack` of an unsigned integer, big-endian, in `k` bytes.
unfoldable pub pack : ℕ → ℕ → Bytes
pack zero n = []
pack (suc k) n = pack k (n / 256) ++ n % 256 ∷ []

unpack_from : ℕ → Bytes → ℕ
unpack_from acc [] = acc
unpack_from acc (b ∷ bs) = unpack_from (acc * 256 + b) bs

-- `struct.unpack` of one unsigned integer, big-endian.
unfoldable pub unpack : Bytes → ℕ
unfolding unpack_from
unpack bs = unpack_from 0 bs

unpack_from-append :
    (acc : ℕ) (bs : Bytes) (b : ℕ) → unpack_from acc (bs ++ b ∷ []) ≡ unpack_from acc bs * 256 + b
unfolding unpack_from
unpack_from-append acc [] b = refl
unpack_from-append acc (c ∷ bs) b = unpack_from-append (acc * 256 + c) bs b

pub length-pack : (k n : ℕ) → length (pack k n) ≡ k
unfolding pack
length-pack zero n = refl
length-pack (suc k) n =
    omega (arith, length-append (pack k (n / 256)) (n % 256 ∷ []), length-pack k (n / 256))

-- An integer that fits in `k` bytes comes back.
pub unpack-pack : (k n : ℕ) → n < 256 ^ k → unpack (pack k n) ≡ n
unfolding unpack pack
unpack-pack zero n h = omega arith
unpack-pack (suc k) n h =
    unpack_from-append 0 (pack k (n / 256)) (n % 256)
    ∙ omega (arith, unpack-pack k (n / 256) (omega (arith, pow-suc 256 k)))

-- The digits from the front.
pack-cons : (k n : ℕ) → pack (suc k) n ≡ n / 256 ^ k % 256 ∷ pack k n
unfolding pack
pack-cons zero n = ap (λ (t : ℕ). t % 256 ∷ []) (omega arith)
pack-cons (suc k) n =
    ap (λ l. l ++ n % 256 ∷ []) (pack-cons k (n / 256))
    ∙ ap (λ (t : ℕ). t % 256 ∷ pack (suc k) n)
        (div-div-eq-div-mul n 256 (256 ^ k) ∙ ap (λ t. n / t) (omega (arith, pow-suc 256 k)))

shift_digit : (acc b p u : ℕ) → (acc * 256 + b) * p + u ≡ acc * (p * 256) + ((0 * 256 + b) * p + u)
shift_digit acc b p u = omega arith

unpack_from-split :
    (acc : ℕ) (bs : Bytes) → unpack_from acc bs ≡ acc * 256 ^ length bs + unpack_from 0 bs
unfolding unpack_from
unpack_from-split acc [] = omega arith
unpack_from-split acc (b ∷ bs) =
    unpack_from-split (acc * 256 + b) bs
    ∙ shift_digit acc b (256 ^ length bs) (unpack_from 0 bs)
    ∙ ap₂ (λ (p u : ℕ). acc * p + u) (sym (pow-suc 256 (length bs)))
        (sym (unpack_from-split (0 * 256 + b) bs))

digit_fits : {b p q u n : ℕ} → n ≡ (0 * 256 + b) * p + u → b < 256 → u < p → q ≡ p * 256 → n < q
digit_fits e h k f = grind arith

first_digit :
    (acc : ℕ) {b p u n : ℕ} → n ≡ (acc * 256 + b) * p + u → b < 256 → u < p → n / p % 256 ≡ b
first_digit acc {b} {p} {u} e h k = rw e (
    rw (mul-add-div_right {m = p} (omega arith) (acc * 256 + b) u)
      (rw (div-eq_of_lt k) (omega arith)))

-- Bytes stand for a number that fits in as many bytes.
pub unpack-lt : (bs : Bytes) → All Byte bs → unpack bs < 256 ^ length bs
unfolding unpack unpack_from
unpack-lt [] h = omega arith
unpack-lt (b ∷ bs) h =
    digit_fits (unpack_from-split (0 * 256 + b) bs) h.0 (unpack-lt bs h.1) (pow-suc 256 (length bs))

pack-unpack_from : (acc : ℕ) (bs : Bytes) → All Byte bs → pack (length bs) (unpack_from acc bs) ≡ bs
unfolding unpack_from
pack-unpack_from acc [] h = unfold pack in refl
pack-unpack_from acc (b ∷ bs) h =
    pack-cons (length bs) (unpack_from (acc * 256 + b) bs)
    ∙ ap₂ (λ c l. c ∷ l)
        (first_digit acc (unpack_from-split (acc * 256 + b) bs) h.0
          (unfold unpack in unpack-lt bs h.1))
        (pack-unpack_from (acc * 256 + b) bs h.1)

-- Bytes come back from the number that they stand for.
pub pack-unpack : (bs : Bytes) → All Byte bs → pack (length bs) (unpack bs) ≡ bs
unfolding unpack
pack-unpack bs h = pack-unpack_from 0 bs h

pub pack-Byte : (k n : ℕ) → All Byte (pack k n)
pack-Byte zero n = unfold pack in tt
pack-Byte (suc k) n = rw pack-cons (omega arith, pack-Byte k n)
