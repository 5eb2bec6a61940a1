-- ===== src/Protocol/Messages/Parts.antt =====
-- core/protocol/messages.py: what the constructors of messages share.
use peerc.Common.{List, [], ◌∷◌, Option, none, some, String}
use peerc.Protocol.Values.{ℤ, Value, null, text, Items, nil, cons}

-- time.time() if timestamp is None else timestamp
abbrev pub stamp : ℤ → Option ℤ → ℤ
stamp now none = now
stamp now (some t) = t

abbrev pub or_null : Option Value → Value
or_null none = null
or_null (some v) = v

abbrev pub text_or_null : Option String → Value
text_or_null none = null
text_or_null (some s) = text s

abbrev pub texts : List String → Items
texts [] = nil
texts (s ∷ ss) = cons (text s) (texts ss)
