-- ===== src/Protocol/Hex.antt =====
-- Python's `bytes.hex` and `bytes.fromhex`, which skips white space between two bytes, and
-- `str.encode` of ASCII texts.
use Prim.Native.Char.{Char, code}
use Prim.Native.String as Text
use peerc.Common.{
  ◌≡◌, refl, ℕ, zero, suc, ◌+◌, ◌*◌, ◌-◌, ◌/◌, ◌%◌, ◌<◌, [], ◌∷◌, Bool, true, false, not, ap, ◌&&◌,
  ◌||◌, ◌==◌, leb, Option, none, some, String, if◌then◌else◌, All, arith,
}
use peerc.Protocol.Bytes.{Byte, Bytes}

unfoldable pub codes : String → Bytes
codes Text.[] = []
codes (Text.◌∷◌ c s) = code c ∷ codes s

digit : ℕ → Char
digit n =
    if n == 0
    then "0"
    else if n == 1
    then "1"
    else if n == 2
    then "2"
    else if n == 3
    then "3"
    else if n == 4
    then "4"
    else if n == 5
    then "5"
    else if n == 6
    then "6"
    else if n == 7
    then "7"
    else if n == 8
    then "8"
    else if n == 9
    then "9"
    else if n == 10
    then "a"
    else if n == 11
    then "b"
    else if n == 12
    then "c"
    else if n == 13
    then "d"
    else if n == 14
    then "e"
    else "f"

unfoldable pub to_hex : Bytes → String
unfolding digit
to_hex [] = Text.[]
to_hex (b ∷ bs) = Text.◌∷◌ (digit (b / 16)) (Text.◌∷◌ (digit (b % 16)) (to_hex bs))

digit_value : ℕ → Option ℕ
digit_value c =
    if leb 48 c && leb c 57
    then some (c - 48)
    else if leb 97 c && leb c 102
    then some (c - 87)
    else if leb 65 c && leb c 70
    then some (c - 55)
    else none

is_space : ℕ → Bool
is_space c = leb 9 c && leb c 13 || c == 32

joined : Option ℕ → Option ℕ → Option Bytes → Option Bytes
joined (some h) (some l) (some rest) = some ((h * 16 + l) ∷ rest)
joined _ _ _ = none

unfoldable pub from_hex : String → Option Bytes
unfolding digit_value is_space joined
from_hex Text.[] = some []
from_hex (Text.◌∷◌ c Text.[]) = if is_space (code c) then some [] else none
from_hex (Text.◌∷◌ c (Text.◌∷◌ d s)) =
    let skipped = from_hex (Text.◌∷◌ d s) in
    let read = joined (digit_value (code c)) (digit_value (code d)) (from_hex s) in
    if is_space (code c) then skipped else read

-- The two facts about one digit, as a test that is run at all sixteen.
reads_back : ℕ → Bool
unfolding digit digit_value is_space
reads_back n =
    not (is_space (code (digit n)))
    && (elim (digit_value (code (digit n))) [ none ↦ false | some v ↦ v == n ])

all_below : ℕ → Bool
all_below zero = true
all_below (suc n) = reads_back n && all_below n

all_below-at : (k n : ℕ) → all_below k ≡ true → n < k → reads_back n ≡ true
unfolding all_below
all_below-at zero n h lt = absurd (omega arith)
all_below-at (suc k) n h lt = ground (arith, all_below-at k n)

sixteen : all_below 16 ≡ true
unfolding all_below reads_back
sixteen = refl

split :
    (n : ℕ)
    → reads_back n ≡ true
    → (is_space (code (digit n)) ≡ false) × (digit_value (code (digit n)) ≡ some n)
unfolding reads_back
split n p = ground arith

digit-reads :
    (n : ℕ) → n < 16 → (is_space (code (digit n)) ≡ false) × (digit_value (code (digit n)) ≡ some n)
digit-reads n h = split n (all_below-at 16 n sixteen h)

pub from_hex-to_hex : (bs : Bytes) → All Byte bs → from_hex (to_hex bs) ≡ some bs
unfolding from_hex to_hex joined
from_hex-to_hex [] h = refl
from_hex-to_hex (b ∷ bs) h =
    let (solid, high) = digit-reads (b / 16) (omega arith) in
    let (_, low) = digit-reads (b % 16) (omega arith) in
    rw (solid, high, low, from_hex-to_hex bs h.1) (ap (λ (x : ℕ). some (x ∷ bs)) (omega arith))
