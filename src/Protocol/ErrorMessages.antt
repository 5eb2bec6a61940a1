-- ===== src/Protocol/ErrorMessages.antt =====
-- core/protocol/error_codes.py: reading an `error` message that a peer sent. `match` on `_ID_RE` is
-- written out, with the newline that its `$` lets through.
pub mod Filtered
use Prim.Native.Char.{code}
use Prim.Native.String as Text
use peerc.Common.{
  ℕ, zero, suc, ◌+◌, ◌*◌, List, [], ◌∷◌, Bool, true, false, not, ◌&&◌, ◌||◌, ◌==◌, ltb, leb, Option,
  none, some, String, str_eq, if◌then◌else◌, Result, ok, err, ◌>>◌, guard,
}
use peerc.Protocol.Errors.{
  ErrorCode, auth_failed, policy_denied, protocol_mismatch, invalid_frame, invalid_state,
  transfer_not_found, size_exceeded, disk_full, checksum_mismatch, transfer_expired, rate_limited,
  internal_error,
}
use peerc.Protocol.Values.{
  ℤ, pos, negsuc, Value, null, bool, int, float, text, array, object, Fields, end, field, get,
  text_length,
}

-- `ProtocolError` by its message.
pub data ProtocolError : Type 0 where
  not_an_object missing_type version_not_int version_too_old : ProtocolError
  missing_fields : String → List String → ProtocolError
  bad_field : String → String → ProtocolError

abbrev pub max_error_message_len : ℕ
max_error_message_len = 512

abbrev pub max_sent_message_len : ℕ
max_sent_message_len = 200

abbrev pub max_code_len : ℕ
max_code_len = 64

abbrev pub max_context_id_len : ℕ
max_context_id_len = 128

abbrev pub max_retry_after_seconds : ℕ
max_retry_after_seconds = 3600

-- [A-Za-z0-9_.:\-]
unfoldable pub is_id_char : ℕ → Bool
is_id_char c =
    leb 65 c && leb c 90
    || leb 97 c && leb c 122
    || leb 48 c && leb c 57
    || c == 95
    || c == 46
    || c == 58
    || c == 45

-- The rest of an id: more of its characters, then the end, or one newline before it.
unfoldable pub id_rest : String → Bool
id_rest Text.[] = true
id_rest (Text.◌∷◌ c s) =
    let rest = id_rest s in if is_id_char (code c) then rest else code c == 10 && str_eq s ""

-- The number of id characters before anything else.
unfoldable pub id_length : String → ℕ
id_length Text.[] = 0
id_length (Text.◌∷◌ c s) = let rest = id_length s in if is_id_char (code c) then 1 + rest else 0

-- `_ID_RE.match(val)`
unfoldable pub matches_id : String → Bool
matches_id s = ltb 0 (id_length s) && leb (id_length s) max_context_id_len && id_rest s

abbrev pub safe_id : Option Value → Bool
safe_id (some (text s)) = matches_id s
safe_id _ = false

-- 0 < retry <= MAX_RETRY_AFTER_SECONDS, for an int or a float that is no bool.
abbrev pub safe_retry : Option Value → Bool
safe_retry (some (int (pos n))) = ltb 0 n && leb n max_retry_after_seconds
safe_retry (some (float (pos n))) = ltb 0 n && leb n (max_retry_after_seconds * 1000)
safe_retry _ = false

-- One key of the context that is kept, in front of the rest.
keep : String → Bool → Option Value → Fields → Fields
keep name true (some v) rest = field name v rest
keep name _ _ rest = rest

kept_id : String → Fields → Fields → Fields
unfolding keep
kept_id name context rest = keep name (safe_id (get name context)) (get name context) rest

-- `filter_context` of a mapping.
unfoldable pub filter_fields : Fields → Fields
unfolding kept_id
filter_fields context = kept_id "message_id" context (
    kept_id "transfer_id" context (
      kept_id "group_id" context (
        keep "retry_after" (safe_retry (get "retry_after" context)) (get "retry_after" context)
          end)))

-- `filter_context`
unfoldable pub filter_context : Option Value → Fields
filter_context (some (object context)) = filter_fields context
filter_context _ = end

-- [\x00-\x1f\x7f-\x9f]
abbrev pub is_control : ℕ → Bool
is_control c = ltb c 0x20 || leb 0x7f c && leb c 0x9f

-- `_CONTROL_RE.sub("?", text)`
unfoldable pub mask_controls : String → String
mask_controls Text.[] = Text.[]
mask_controls (Text.◌∷◌ c s) = Text.◌∷◌ (if is_control (code c) then "?" else c) (mask_controls s)

-- text[:limit]
unfoldable pub cut : ℕ → String → String
cut zero s = Text.[]
cut (suc n) Text.[] = Text.[]
cut (suc n) (Text.◌∷◌ c s) = Text.◌∷◌ c (cut n s)

-- s + t
abbrev append : String → String → String
append Text.[] t = t
append (Text.◌∷◌ c s) t = Text.◌∷◌ c (append s t)

-- `sanitize_for_log` of a text.
unfoldable pub sanitize_for_log : String → ℕ → String
sanitize_for_log value limit =
    let masked = mask_controls value in
    if ltb limit (text_length masked) then append (cut limit masked) "..." else masked

-- `ErrorCode(raw_code)`
unfoldable pub code_of : String → Option ErrorCode
code_of s =
    if str_eq s "AUTH_FAILED"
    then some auth_failed
    else if str_eq s "POLICY_DENIED"
    then some policy_denied
    else if str_eq s "PROTOCOL_MISMATCH"
    then some protocol_mismatch
    else if str_eq s "INVALID_FRAME"
    then some invalid_frame
    else if str_eq s "INVALID_STATE"
    then some invalid_state
    else if str_eq s "TRANSFER_NOT_FOUND"
    then some transfer_not_found
    else if str_eq s "SIZE_EXCEEDED"
    then some size_exceeded
    else if str_eq s "DISK_FULL"
    then some disk_full
    else if str_eq s "CHECKSUM_MISMATCH"
    then some checksum_mismatch
    else if str_eq s "TRANSFER_EXPIRED"
    then some transfer_expired
    else if str_eq s "RATE_LIMITED"
    then some rate_limited
    else if str_eq s "INTERNAL_ERROR"
    then some internal_error
    else none

-- `ErrorCode.value`
unfoldable pub code_name : ErrorCode → String
code_name auth_failed = "AUTH_FAILED"
code_name policy_denied = "POLICY_DENIED"
code_name protocol_mismatch = "PROTOCOL_MISMATCH"
code_name invalid_frame = "INVALID_FRAME"
code_name invalid_state = "INVALID_STATE"
code_name transfer_not_found = "TRANSFER_NOT_FOUND"
code_name size_exceeded = "SIZE_EXCEEDED"
code_name disk_full = "DISK_FULL"
code_name checksum_mismatch = "CHECKSUM_MISMATCH"
code_name transfer_expired = "TRANSFER_EXPIRED"
code_name rate_limited = "RATE_LIMITED"
code_name internal_error = "INTERNAL_ERROR"

-- `ErrorInfo`, whole.
pub record ParsedError : Type 0 where
  pub code : ErrorCode
  pub raw_code : String
  pub known : Bool
  pub peer_message : String
  pub context : Fields

abbrev text_at_most : ℕ → Option Value → Bool
text_at_most n (some (text s)) = leb (text_length s) n
text_at_most n _ = false

abbrev is_filled_at_most : ℕ → Option Value → Bool
is_filled_at_most n (some (text s)) = not (str_eq s "") && leb (text_length s) n
is_filled_at_most n _ = false

abbrev is_object_or_missing : Option Value → Bool
is_object_or_missing none = true
is_object_or_missing (some null) = true
is_object_or_missing (some (object m)) = true
is_object_or_missing _ = false

abbrev pub text_or_empty : Option Value → String
text_or_empty (some (text s)) = s
text_or_empty _ = ""

info_of : String → String → Option Value → Option ErrorCode → ParsedError
info_of raw_code peer_message raw_context found = record {
  code = elim found [ some c ↦ c | none ↦ internal_error ];
  raw_code = raw_code;
  known = elim found [ some c ↦ true | none ↦ false ];
  peer_message = sanitize_for_log peer_message max_sent_message_len;
  context = filter_context raw_context;
}

-- `parse_error_message` of a message whose type is "error".
unfoldable pub parse_error_message : Fields → Result ProtocolError ParsedError
unfolding info_of
parse_error_message m =
    let raw_code = text_or_empty (get "code" m) in
    guard (is_filled_at_most max_code_len (get "code" m)) (bad_field "error" "code")
    >> guard (text_at_most max_error_message_len (get "message" m)) (bad_field "error" "message")
    >> guard (is_object_or_missing (get "context" m)) (bad_field "error" "context")
    >> ok (info_of raw_code (text_or_empty (get "message" m)) (get "context" m) (code_of raw_code))

-- `build_error` of a known code. `is_suspicious` says whether one of `_SUSPICIOUS_RES` is found in
-- the text, `canonical` is `CONTRACTS[code].text`.
module _ (is_suspicious : String → Bool) (canonical : ErrorCode → String) where
  -- `is_safe_message`, of a text; `is_blank` is `not text.strip()`.
  unfoldable pub is_safe_message : (String → Bool) → String → Bool
  is_safe_message is_blank s =
      not (is_blank s)
      && leb (text_length s) max_sent_message_len
      && str_eq (mask_controls s) s
      && not (is_suspicious s)

  unfoldable pub build_error :
      (String → Bool) → ErrorCode → Option String → Option Value → ℕ → Fields
  build_error is_blank ec message context version =
      let chosen : String = elim message [
        | none ↦ canonical ec
        | some s ↦ if is_safe_message is_blank s then s else canonical ec
      ] in
      let base : Fields = elim (filter_context context) [
        | end ↦ end
        | field k v rest ↦ field "context" (object (field k v rest)) end
      ] in
      field "type" (text "error") (
        field "version" (int (pos version))
          (field "code" (text (code_name ec)) (field "message" (text chosen) base)))
