-- ===== src/Protocol/Values.antt =====
-- Python values as `json.loads` gives them: the messages of core/protocol/messages.py and what they
-- hold. A float is a whole number of thousandths.
use Prim.Native.Char.{code}
use Prim.Native.String as Text
use peerc.Common.{
  ℕ, ◌+◌, List, [], ◌∷◌, Bool, true, false, not, ltb, Option, none, some, String, str_eq,
  if◌then◌else◌,
}

-- `negsuc n` is -(n + 1).
pub data ℤ : Type 0 where
  pos : ℕ → ℤ
  negsuc : ℕ → ℤ

mutual
  pub data Value : Type 0 where
    null : Value
    bool : Bool → Value
    int : ℤ → Value
    float : ℤ → Value
    text : String → Value
    array : Items → Value
    object : Fields → Value

  pub data Items : Type 0 where
    nil : Items
    cons : Value → Items → Items

  pub data Fields : Type 0 where
    end : Fields
    field : String → Value → Fields → Fields

-- A dict display.
abbrev pub fields : List (String × Value) → Fields
fields [] = end
fields ((k, v) ∷ rest) = field k v (fields rest)

-- message.get(name)
unfoldable pub get : String → Fields → Option Value
get name end = none
get name (field k v m) = if str_eq k name then some v else get name m

-- `name in message`
abbrev pub has : String → Fields → Bool
has name m = elim (get name m) [ none ↦ false | some v ↦ true ]

-- isinstance(v, str)
abbrev pub is_text : Option Value → Bool
is_text (some (text s)) = true
is_text _ = false

-- isinstance(v, str) and v
abbrev pub is_filled : Option Value → Bool
is_filled (some (text s)) = not (str_eq s "")
is_filled _ = false

-- isinstance(v, bool)
abbrev pub is_bool : Option Value → Bool
is_bool (some (bool b)) = true
is_bool _ = false

-- v, where it is known to be a bool.
abbrev pub is_true : Option Value → Bool
is_true (some (bool b)) = b
is_true _ = false

-- isinstance(v, dict)
abbrev pub is_object : Option Value → Bool
is_object (some (object m)) = true
is_object _ = false

-- isinstance(v, int), with its value: True and False are ints too.
abbrev pub int_of : Option Value → Option ℤ
int_of (some (int z)) = some z
int_of (some (bool b)) = some (pos (if b then 1 else 0))
int_of _ = none

-- isinstance(v, (int, float))
abbrev pub is_number : Option Value → Bool
is_number (some (int z)) = true
is_number (some (float z)) = true
is_number (some (bool b)) = true
is_number _ = false

-- A number and no bool.
abbrev pub is_numeric : Option Value → Bool
is_numeric (some (int z)) = true
is_numeric (some (float z)) = true
is_numeric _ = false

-- v in (...), for a tuple of texts.
abbrev pub is_one_of : List String → Option Value → Bool
is_one_of [] v = false
is_one_of (s ∷ ss) (some (text t)) =
    let rest = is_one_of ss (some (text t)) in if str_eq t s then true else rest
is_one_of _ _ = false

-- all(isinstance(p, str) for p in items)
unfoldable pub all_texts : Items → Bool
all_texts nil = true
all_texts (cons (text s) items) = all_texts items
all_texts (cons _ items) = false

-- len(s)
unfoldable pub text_length : String → ℕ
text_length Text.[] = 0
text_length (Text.◌∷◌ c s) = 1 + text_length s

-- The bytes of a character in UTF-8; a text of the model has no surrogates.
abbrev utf8_width : ℕ → ℕ
utf8_width n = if ltb n 0x80 then 1 else if ltb n 0x800 then 2 else if ltb n 0x10000 then 3 else 4

-- len(s.encode("utf-8", errors="replace"))
unfoldable pub utf8_length : String → ℕ
utf8_length Text.[] = 0
utf8_length (Text.◌∷◌ c s) = utf8_width (code c) + utf8_length s
