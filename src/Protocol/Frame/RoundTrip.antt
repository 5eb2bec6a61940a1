-- ===== src/Protocol/Frame/RoundTrip.antt =====
-- Frames written to a stream are read back, one by one, whatever follows them.
use mathlib.Core.List.{append_assoc, append-nil}
use peerc.Common.{
  ◌≡◌, refl, sym, ap, ◌∙◌, ℕ, zero, suc, ◌+◌, ◌<◌, ◌≤◌, ◌^◌, List, [], ◌∷◌, ◌++◌, length,
  take-append, drop-append, length-append, le→ltb, Result, ok, ◌>>=◌, bind-eq-ok, All, arith,
}
use peerc.Protocol.Bytes.{Bytes, pack, length-pack, unpack-pack}
use peerc.Protocol.Frame.{
  FrameError, length_prefix_size, max_message_size, binary_flag, with_flag, without_flag,
  readexactly, Kind, json, binary, kind_of, read_payload, read_raw, Json, Frame, message, chunk,
  encode_frame, encode_binary_frame, encode_any, write_any, decode_json, read_any_frame,
}

pub readexactly-append :
    (n : ℕ) (xs ys : Bytes) → length xs ≡ n → readexactly n (xs ++ ys) ≡ ok (xs, ys)
unfolding readexactly
readexactly-append n xs ys h = rw (← h) (
    rw (le→ltb (length (xs ++ ys)) (length xs) (omega (arith, length-append xs ys)))
      (rw (take-append xs ys) (rw (drop-append xs ys))))

-- The number in the header of a frame.
abbrev pub header_number : Kind → ℕ → ℕ
header_number json n = n
header_number binary n = n + binary_flag

header-kind : (k : Kind) (n : ℕ) → n ≤ max_message_size → kind_of (header_number k n) ≡ k
header-kind json n h = ground arith
header-kind binary n h = ground arith

pub header-length : (k : Kind) (n : ℕ) → n ≤ max_message_size → without_flag (header_number k n) ≡ n
header-length json n h = ground arith
header-length binary n h = ground arith

pub header-fits :
    (k : Kind) (n : ℕ) → n ≤ max_message_size → header_number k n < 256 ^ length_prefix_size
header-fits json n h = omega arith
header-fits binary n h = omega arith

with_flag-header : (n : ℕ) → n ≤ max_message_size → with_flag n ≡ header_number binary n
with_flag-header n h = ground arith

read_payload-frame :
    (k : Kind) (payload rest : Bytes)
    → 0 < length payload
    → length payload ≤ max_message_size
    → read_payload (header_number k (length payload)) (payload ++ rest) ≡ ok ((k, payload), rest)
unfolding read_payload
read_payload-frame k payload rest nonempty fits = rw (header-length k (length payload) fits) (
    rw (header-kind k (length payload) fits)
      (ground (arith, readexactly-append (length payload) payload rest refl)))

pub read_raw-frame :
    (k : Kind) (payload rest : Bytes)
    → 0 < length payload
    → length payload ≤ max_message_size
    → read_raw (pack length_prefix_size (header_number k (length payload)) ++ (payload ++ rest))
      ≡ ok ((k, payload), rest)
unfolding read_raw
read_raw-frame k payload rest nonempty fits =
    let number = header_number k (length payload) in
    rw
      (readexactly-append length_prefix_size (pack length_prefix_size number) (payload ++ rest)
        (length-pack length_prefix_size number))
      (rw (unpack-pack length_prefix_size number (header-fits k (length payload) fits))
        (read_payload-frame k payload rest nonempty fits))

-- What `encode_binary_frame` writes, when it writes.
pub encode_binary_frame-ok :
    (payload : Bytes) {bytes : Bytes}
    → encode_binary_frame payload ≡ ok bytes
    → (length payload ≤ max_message_size)
      × (bytes ≡ pack length_prefix_size (header_number binary (length payload)) ++ payload)
unfolding encode_binary_frame
encode_binary_frame-ok payload h = ground (arith, with_flag-header (length payload))

module _ {Message : Type 0} (codec : Json Message) where
  open codec use {dumps, loads, dumps_nonempty, loads-dumps}

  -- A frame that may be read: a chunk is not empty.
  abbrev pub IsReadable : Frame Message → Type 0
  IsReadable (message m) = Unit
  IsReadable (chunk payload) = 0 < length payload

  pub encode_frame-ok :
      (m : Message) {bytes : Bytes}
      → encode_frame codec m ≡ ok bytes
      → (length (dumps m) ≤ max_message_size)
        × (bytes ≡ pack length_prefix_size (header_number json (length (dumps m))) ++ dumps m)
  unfolding encode_frame
  encode_frame-ok m h = ground arith

  decode_json-dumps : (m : Message) → decode_json codec (dumps m) ≡ ok m
  unfolding decode_json
  decode_json-dumps m = rw (loads-dumps m, decode_json)

  -- What was encoded is read back, and what follows it in the stream is left.
  pub read_any_frame-encode_any :
      (frame : Frame Message) {bytes : Bytes} (rest : Bytes)
      → encode_any codec frame ≡ ok bytes
      → IsReadable frame
      → read_any_frame codec (bytes ++ rest) ≡ ok (frame, rest)
  unfolding read_any_frame encode_any
  read_any_frame-encode_any (message m) rest h readable =
      let (fits, shape) = encode_frame-ok m h in
      rw (shape, append_assoc)
        (rw (read_raw-frame json (dumps m) rest (omega (arith, dumps_nonempty m)) fits)
          (rw (decode_json-dumps m)))
  read_any_frame-encode_any (chunk payload) rest h readable =
      let (fits, shape) = encode_binary_frame-ok payload h in
      rw (shape, append_assoc) (rw (read_raw-frame binary payload rest readable fits))

  -- The frames that a sender writes, appended to what is queued.
  abbrev pub write_all : Bytes → List (Frame Message) → Result FrameError Bytes
  write_all queued [] = ok queued
  write_all queued (frame ∷ frames) =
      write_any codec queued frame >>= λ queued'. write_all queued' frames

  -- A read loop that takes the given number of frames.
  abbrev pub read_frames : ℕ → Bytes → Result FrameError (List (Frame Message) × Bytes)
  read_frames zero reader = ok ([], reader)
  read_frames (suc n) reader = read_any_frame codec reader >>= λ first.
      read_frames n first.1 >>= λ others. ok (first.0 ∷ others.0, others.1)

  write_any-ok :
      (queued : Bytes) (frame : Frame Message) {queued' : Bytes}
      → write_any codec queued frame ≡ ok queued'
      → (bytes : Bytes) × (encode_any codec frame ≡ ok bytes) × (queued' ≡ queued ++ bytes)
  unfolding write_any
  write_any-ok queued frame h =
      let (bytes, encoded, appended) =
        bind-eq-ok (encode_any codec frame) (λ b. ok (queued ++ b)) h in
      (bytes, encoded, cc appended)

  written :
      (queued : Bytes) (frames : List (Frame Message)) {bytes : Bytes}
      → write_all queued frames ≡ ok bytes
      → All IsReadable frames
      → (tail : Bytes) × (bytes ≡ queued ++ tail)
        × ((rest : Bytes) → read_frames (length frames) (tail ++ rest) ≡ ok (frames, rest))
  written queued [] h all = ([], sym (append-nil queued ∙ cc h), λ rest. refl)
  written queued (frame ∷ frames) h all =
      let (queued', first, others) =
        bind-eq-ok (write_any codec queued frame) (λ q. write_all q frames) h in
      let (bytes, encoded, appended) = write_any-ok queued frame first in
      let (tail, shape, reads) = written queued' frames others all.1 in
      (
        bytes ++ tail,
        shape ∙ ap (λ q. q ++ tail) appended ∙ append_assoc queued bytes tail,
        λ rest.
            rw (append_assoc)
              (rw (read_any_frame-encode_any frame (tail ++ rest) encoded all.0) (rw (reads rest))),
      )

  -- A stream of frames, control messages and chunks in any order, is read back frame by frame: the
  -- boundaries are kept, and what follows the last frame is left in the reader. No chunk is empty.
  pub read_frames-write_all :
      (frames : List (Frame Message)) {bytes : Bytes} (rest : Bytes)
      → write_all [] frames ≡ ok bytes
      → All IsReadable frames
      → read_frames (length frames) (bytes ++ rest) ≡ ok (frames, rest)
  read_frames-write_all frames rest h all =
      let (tail, shape, reads) = written [] frames h all in
      ap (λ b. read_frames (length frames) (b ++ rest)) shape ∙ reads rest
