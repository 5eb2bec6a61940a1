-- ===== src/Protocol/Examples.antt =====
-- A stream of three frames and a file chunk, with a codec of two messages.
use peerc.Common.{
  ◌≡◌, refl, ◌<◌, ◌≤◌, List, [], ◌∷◌, ◌++◌, Bool, true, false, Option, none, some, length, ok,
  if◌then◌else◌, ◌==◌, All, arith,
}
use peerc.Protocol.Bytes.{Byte, Bytes, pack, unpack}
use peerc.Protocol.Frame.{
  Json, Frame, message, chunk, json, length_prefix_size, max_message_size, read_raw, encode_any,
  write_any, encode_frame, encode_binary_frame, readexactly, read_payload,
}
use peerc.Protocol.Frame.RoundTrip.{write_all, read_frames, header_number, read_frames-write_all}
use peerc.Protocol.Frame.Limits.{read_raw_sound}
use peerc.Protocol.Binary.{Uuids, encode_file_data, decode_file_data, decode-encode_file_data}

-- `{}` and `[]`.
abbrev pub text_of : Bool → Bytes
text_of true = 123 ∷ 125 ∷ []
text_of false = 91 ∷ 93 ∷ []

abbrev pub value_of : Bytes → Option Bool
value_of [] = none
value_of (b ∷ bs) = if b == 123 then some true else some false

pub text-Byte : (m : Bool) → All Byte (text_of m)
text-Byte true = omega arith
text-Byte false = omega arith

pub text_nonempty : (m : Bool) → 1 < length (text_of m)
text_nonempty true = omega arith
text_nonempty false = omega arith

pub value-text : (m : Bool) → value_of (text_of m) ≡ some m
value-text true = refl
value-text false = refl

abbrev pub tiny : Json Bool
tiny = record {
  dumps = text_of;
  loads = value_of;
  dumps-Byte = text-Byte;
  dumps_nonempty = text_nonempty;
  loads-dumps = value-text;
}

abbrev raw_parse : Bytes → Option Bytes
raw_parse t = if length t == 16 then some t else none

length-raw_parse : (t : Bytes) {b : Bytes} → raw_parse t ≡ some b → length b ≡ 16
length-raw_parse t h = ground arith

raw_parse-format : (b : Bytes) → length b ≡ 16 → All Byte b → raw_parse b ≡ some b
raw_parse-format b h all = ground arith

-- Identifiers that are their 16 bytes.
abbrev raw : Uuids Bytes
raw = record {
  parse = raw_parse;
  format = λ b. b;
  length-parse = length-raw_parse;
  parse-format = raw_parse-format;
}

abbrev frames : List (Frame Bool)
frames = message true ∷ chunk (1 ∷ 2 ∷ 3 ∷ []) ∷ message false ∷ []

abbrev stream : Bytes
stream = 0 ∷ 0 ∷ 0 ∷ 2 ∷ 123 ∷ 125 ∷ 128 ∷ 0 ∷ 0 ∷ 3 ∷ 1 ∷ 2 ∷ 3 ∷ 0 ∷ 0 ∷ 0 ∷ 2 ∷ 91 ∷ 93 ∷ []

frames_written : write_all tiny [] frames ≡ ok stream
unfolding write_any encode_any encode_frame encode_binary_frame pack
frames_written = refl

read_frames-write_all_example : read_frames tiny 3 (stream ++ 7 ∷ []) ≡ ok (frames, 7 ∷ [])
read_frames-write_all_example =
    read_frames-write_all tiny frames (7 ∷ []) frames_written (omega arith)

first_read :
    read_raw stream
    ≡ ok ((json, 123 ∷ 125 ∷ []), 128 ∷ 0 ∷ 0 ∷ 3 ∷ 1 ∷ 2 ∷ 3 ∷ 0 ∷ 0 ∷ 0 ∷ 2 ∷ 91 ∷ 93 ∷ [])
unfolding read_raw read_payload readexactly unpack
first_read = refl

read_raw_sound_example :
    (0 < 2)
    × (2 ≤ max_message_size)
    × (stream
        ≡ pack length_prefix_size (header_number json 2)
          ++ (123 ∷ 125 ∷ 128 ∷ 0 ∷ 0 ∷ 3 ∷ 1 ∷ 2 ∷ 3 ∷ 0 ∷ 0 ∷ 0 ∷ 2 ∷ 91 ∷ 93 ∷ []))
read_raw_sound_example = read_raw_sound stream (omega arith) first_read

message_encoded : encode_any tiny (message true) ≡ ok (0 ∷ 0 ∷ 0 ∷ 2 ∷ 123 ∷ 125 ∷ [])
unfolding encode_any encode_frame pack
message_encoded = refl

abbrev some_id : Bytes
some_id = 1 ∷ 2 ∷ 3 ∷ 4 ∷ 5 ∷ 6 ∷ 7 ∷ 8 ∷ 9 ∷ 10 ∷ 11 ∷ 12 ∷ 13 ∷ 14 ∷ 15 ∷ 16 ∷ []

abbrev chunk_payload : Bytes
chunk_payload = some_id ++ (0 ∷ 0 ∷ 0 ∷ 2 ∷ 0 ∷ 0 ∷ 0 ∷ 0 ∷ 0 ∷ 2 ∷ 0 ∷ 0 ∷ 255 ∷ 254 ∷ [])

chunk_encoded : encode_file_data raw some_id 2 131072 (255 ∷ 254 ∷ []) ≡ ok chunk_payload
unfolding encode_file_data pack
chunk_encoded = refl

decode-encode_file_data_example :
    (tid : Bytes) × (raw_parse some_id ≡ some tid)
    × (decode_file_data raw chunk_payload
        ≡ ok (record { transfer_id = tid; sequence = 2; offset = 131072; body = 255 ∷ 254 ∷ [] }))
decode-encode_file_data_example =
    decode-encode_file_data raw some_id 2 131072 (255 ∷ 254 ∷ []) chunk_encoded
