-- ===== src/Protocol/Frame.antt =====
-- core/protocol/frame.py: length-prefixed frames. A reader is the list of bytes that have still to
-- be read before the connection closes; JSON is a parameter.
pub mod RoundTrip
pub mod Limits
use peerc.Common.{
  ◌≡◌, ◌≢◌, refl, ℕ, ◌+◌, ◌*◌, ◌-◌, ◌/◌, ◌%◌, ◌^◌, ◌<◌, List, [], ◌∷◌, ◌++◌, All, Bool, true, false,
  ◌||◌, Option, none, some, length, take, drop, ltb, ◌==◌, if◌then◌else◌, Result, ok, err, ◌>>=◌,
}
use peerc.Protocol.Bytes.{Byte, Bytes, pack, unpack}

-- `ProtocolError` by its message, and asyncio's IncompleteReadError.
pub data FrameError : Type 0 where
  message_too_large binary_payload_too_large invalid_frame_length : ℕ → FrameError
  malformed_json expected_json_frame incomplete_read : FrameError

abbrev pub length_prefix_size : ℕ
length_prefix_size = 4

abbrev pub max_message_size : ℕ
max_message_size = 100 * 1024 * 1024

abbrev pub binary_flag : ℕ
binary_flag = 0x80000000

-- `n & BINARY_FLAG`, as a test of bit 31.
abbrev pub has_flag : ℕ → Bool
has_flag n = n / binary_flag % 2 == 1

-- `n | BINARY_FLAG`.
abbrev pub with_flag : ℕ → ℕ
with_flag n = if has_flag n then n else n + binary_flag

-- `n & ~BINARY_FLAG`.
abbrev pub without_flag : ℕ → ℕ
without_flag n = if has_flag n then n - binary_flag else n

-- `reader.readexactly(n)`: the bytes, and what is left to read.
unfoldable pub readexactly : ℕ → Bytes → Result FrameError (Bytes × Bytes)
readexactly n reader =
    if ltb (length reader) n then err incomplete_read else ok (take n reader, drop n reader)

unfoldable pub encode_binary_frame : Bytes → Result FrameError Bytes
encode_binary_frame payload =
    if ltb max_message_size (length payload)
    then err (binary_payload_too_large (length payload))
    else ok (pack length_prefix_size (with_flag (length payload)) ++ payload)

pub data Kind : Type 0 where
  json binary : Kind

abbrev pub kind_of : ℕ → Kind
kind_of raw_length = if has_flag raw_length then binary else json

-- `_read_raw` after the header was read.
unfoldable pub read_payload : ℕ → Bytes → Result FrameError ((Kind × Bytes) × Bytes)
read_payload raw_length reader =
    let len = without_flag raw_length in
    if len == 0 || ltb max_message_size len
    then err (invalid_frame_length len)
    else do (payload, rest) ← readexactly len reader; ok ((kind_of raw_length, payload), rest)

unfoldable pub read_raw : Bytes → Result FrameError ((Kind × Bytes) × Bytes)
read_raw reader = do
  (header, rest) ← readexactly length_prefix_size reader
  read_payload (unpack header) rest

-- What the code relies on of `json.dumps` and `json.loads` on the messages that it sends: text of
-- at least two characters, such as `{}`, that reads back as the same message.
pub record Json (Message : Type 0) : Type 0 where
  pub dumps : Message → Bytes
  pub loads : Bytes → Option Message
  pub dumps-Byte : (m : Message) → All Byte (dumps m)
  pub dumps_nonempty : (m : Message) → 1 < length (dumps m)
  pub loads-dumps : (m : Message) → loads (dumps m) ≡ some m

pub data Frame (Message : Type 0) : Type 0 where
  message : Message → Frame Message
  chunk : Bytes → Frame Message

module _ {Message : Type 0} (codec : Json Message) where
  open codec use {dumps, loads}

  unfoldable pub encode_frame : Message → Result FrameError Bytes
  encode_frame m =
      let payload = dumps m in
      if ltb max_message_size (length payload)
      then err (message_too_large (length payload))
      else ok (pack length_prefix_size (length payload) ++ payload)

  unfoldable pub decode_json : Bytes → Result FrameError Message
  decode_json payload = elim (loads payload) [ none ↦ err malformed_json | some m ↦ ok m ]

  read_kind : Kind × Bytes → Result FrameError (Frame Message)
  read_kind (json, payload) = do m ← decode_json payload; ok (message m)
  read_kind (binary, payload) = ok (chunk payload)

  unfoldable pub read_any_frame : Bytes → Result FrameError (Frame Message × Bytes)
  unfolding read_kind
  read_any_frame reader = do (raw, rest) ← read_raw reader; frame ← read_kind raw; ok (frame, rest)

  json_only : Kind × Bytes → Result FrameError Message
  json_only (json, payload) = decode_json payload
  json_only (binary, payload) = err expected_json_frame

  unfoldable pub read_frame : Bytes → Result FrameError (Message × Bytes)
  unfolding json_only
  read_frame reader = do (raw, rest) ← read_raw reader; m ← json_only raw; ok (m, rest)

  -- A frame of either kind, encoded.
  unfoldable pub encode_any : Frame Message → Result FrameError Bytes
  encode_any (message m) = encode_frame m
  encode_any (chunk payload) = encode_binary_frame payload

  -- `write_frame` and `write_binary_frame` append to what the writer has queued.
  unfoldable pub write_any : Bytes → Frame Message → Result FrameError Bytes
  write_any queued frame = do bytes ← encode_any frame; ok (queued ++ bytes)
