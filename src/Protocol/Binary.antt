-- ===== src/Protocol/Binary.antt =====
-- core/protocol/binary.py: the payload of a file_data frame. A sequence and an offset are natural
-- numbers, so the tests for negative ones are left out; UUIDs are a parameter.
use mathlib.Core.Path.{subst}
use peerc.Common.{
  ◌≡◌, sym, ap, ◌∙◌, ℕ, ◌<◌, ◌≤◌, ◌^◌, ◌++◌, Option, none, some, length, take, drop,
  take-append-drop, length-append, length-take, length-drop, take-append_at, drop-append_past,
  drop-drop, ltb, le→ltb, if◌then◌else◌, Result, ok, err, ◌>>=◌, All, All-append, arith,
}
use peerc.Protocol.Bytes.{
  Byte, Bytes, pack, unpack, length-pack, unpack-pack, pack-unpack, unpack-lt,
}

pub data BinaryError : Type 0 where
  not_a_uuid : BinaryError
  sequence_out_of_range offset_out_of_range file_data_too_short : ℕ → BinaryError

-- What the code relies on of `uuid.UUID`: `parse` is `uuid.UUID(text).bytes` where it does not raise,
-- `format` is `str(uuid.UUID(bytes=…))`.
pub record Uuids (Text : Type 0) : Type 0 where
  pub parse : Text → Option Bytes
  pub format : Bytes → Text
  pub length-parse : (t : Text) {b : Bytes} → parse t ≡ some b → length b ≡ 16
  pub parse-format : (b : Bytes) → length b ≡ 16 → All Byte b → parse (format b) ≡ some b

pub record FileData (Text : Type 0) : Type 0 where
  pub transfer_id : Text
  pub sequence : ℕ
  pub offset : ℕ
  pub body : Bytes

-- `struct.calcsize(">16sIQ")`.
abbrev pub header_size : ℕ
header_size = 28

module _ {Text : Type 0} (uuids : Uuids Text) where
  open uuids use {parse, format, length-parse, parse-format}

  parse_id : Text → Result BinaryError Bytes
  parse_id transfer_id = elim (parse transfer_id) [ none ↦ err not_a_uuid | some b ↦ ok b ]

  unfoldable pub encode_file_data : Text → ℕ → ℕ → Bytes → Result BinaryError Bytes
  unfolding parse_id
  encode_file_data transfer_id sequence offset body = do
    tid_bytes ← parse_id transfer_id
    if ltb 0xFFFFFFFF sequence
        then err (sequence_out_of_range sequence)
        else if ltb 0xFFFFFFFFFFFFFFFF offset
        then err (offset_out_of_range offset)
        else ok (tid_bytes ++ (pack 4 sequence ++ (pack 8 offset ++ body)))

  unfoldable pub decode_file_data : Bytes → Result BinaryError (FileData Text)
  decode_file_data payload =
      if ltb (length payload) header_size
      then err (file_data_too_short (length payload))
      else ok (record {
        transfer_id = format (take 16 payload);
        sequence = unpack (take 4 (drop 16 payload));
        offset = unpack (take 8 (drop 20 payload));
        body = drop header_size payload;
      })

  encode_file_data-ok :
      (transfer_id : Text) (sequence offset : ℕ) (body : Bytes) {payload : Bytes}
      → encode_file_data transfer_id sequence offset body ≡ ok payload
      → (tid : Bytes) × (parse transfer_id ≡ some tid)
        × (sequence ≤ 0xFFFFFFFF)
        × (offset ≤ 0xFFFFFFFFFFFFFFFF)
        × (payload ≡ tid ++ (pack 4 sequence ++ (pack 8 offset ++ body)))
  unfolding encode_file_data
  encode_file_data-ok transfer_id sequence offset body h = ground arith

  -- Fields of any layout of the four parts are cut out where they stand.
  decode-parts :
      (t s o b : Bytes)
      → length t ≡ 16
      → length s ≡ 4
      → length o ≡ 8
      → decode_file_data (t ++ (s ++ (o ++ b)))
        ≡ ok (record { transfer_id = format t; sequence = unpack s; offset = unpack o; body = b })
  unfolding decode_file_data
  decode-parts t s o b ht hs ho =
      let rest = s ++ (o ++ b) in
      rw
        (le→ltb (length (t ++ rest)) header_size
          (omega (arith, length-append t rest, length-append s (o ++ b), length-append o b)))
        (rw (take-append_at 16 t rest ht) (
          rw (drop-append_past 16 0 t rest ht) (
            rw (take-append_at 4 s (o ++ b) hs) (
              rw (drop-append_past 16 4 t rest ht) (
                rw (drop-append_past 4 0 s (o ++ b) hs) (
                  rw (take-append_at 8 o b ho) (
                    rw (drop-append_past 16 12 t rest ht) (
                      rw (drop-append_past 4 8 s (o ++ b) hs)
                        (rw (drop-append_past 8 0 o b ho))))))))))

  -- A chunk that was packed is unpacked to the same sequence, offset and bytes, under the canonical
  -- spelling of its transfer id.
  pub decode-encode_file_data :
      (transfer_id : Text) (sequence offset : ℕ) (body : Bytes) {payload : Bytes}
      → encode_file_data transfer_id sequence offset body ≡ ok payload
      → (tid : Bytes) × (parse transfer_id ≡ some tid)
        × (decode_file_data payload
            ≡ ok (record {
              transfer_id = format tid;
              sequence = sequence;
              offset = offset;
              body = body;
            }))
  decode-encode_file_data transfer_id sequence offset body h =
      let (tid, known, seq_fits, off_fits, shape) =
        encode_file_data-ok transfer_id sequence offset body h in
      (
        tid,
        known,
        rw
            (
              shape,
              decode-parts tid (pack 4 sequence) (pack 8 offset) body
                  (length-parse transfer_id known) (length-pack 4 sequence) (length-pack 8 offset),
            )
            (rw (unpack-pack 4 sequence (omega arith)) (rw (unpack-pack 8 offset (omega arith)))),
      )

  cut :
      (payload : Bytes)
      → payload
        ≡ take 16 payload
          ++ (take 4 (drop 16 payload) ++ (take 8 (drop 20 payload) ++ drop header_size payload))
  cut payload =
      sym (take-append-drop 16 payload)
      ∙ ap (λ l. take 16 payload ++ l)
          (sym (take-append-drop 4 (drop 16 payload))
            ∙ ap (λ l. take 4 (drop 16 payload) ++ l)
                (drop-drop 16 4 payload
                  ∙ sym (take-append-drop 8 (drop 20 payload))
                  ∙ ap (λ l. take 8 (drop 20 payload) ++ l) (drop-drop 20 8 payload)))

  encode-known :
      (transfer_id : Text) (tid : Bytes) (sequence offset : ℕ) (body : Bytes)
      → parse transfer_id ≡ some tid
      → sequence ≤ 0xFFFFFFFF
      → offset ≤ 0xFFFFFFFFFFFFFFFF
      → encode_file_data transfer_id sequence offset body
        ≡ ok (tid ++ (pack 4 sequence ++ (pack 8 offset ++ body)))
  unfolding encode_file_data
  encode-known transfer_id tid sequence offset body known s o = ground arith

  encode-parts :
      (t s o b : Bytes)
      → length t ≡ 16
      → length s ≡ 4
      → length o ≡ 8
      → All Byte (t ++ (s ++ (o ++ b)))
      → encode_file_data (format t) (unpack s) (unpack o) b ≡ ok (t ++ (s ++ (o ++ b)))
  encode-parts t s o b ht hs ho bytes =
      let (bt, b1) = (All-append Byte t (s ++ (o ++ b))).0 bytes in
      let (bs, b2) = (All-append Byte s (o ++ b)).0 b1 in
      let bo : All Byte o = ((All-append Byte o b).0 b2).0 in
      let packed_s : pack 4 (unpack s) ≡ s = rw hs at (pack-unpack s bs) in
      let packed_o : pack 8 (unpack o) ≡ o = rw ho at (pack-unpack o bo) in
      let small_s : unpack s < 256 ^ 4 = rw hs at (unpack-lt s bs) in
      let small_o : unpack o < 256 ^ 8 = rw ho at (unpack-lt o bo) in
      encode-known (format t) t (unpack s) (unpack o) b (parse-format t ht bt) (omega arith)
        (omega arith)
      ∙ cc (packed_s, packed_o)

  decode_file_data-ok :
      (payload : Bytes) {d : FileData Text}
      → decode_file_data payload ≡ ok d
      → (header_size ≤ length payload)
        × (d ≡ record {
          transfer_id = format (take 16 payload);
          sequence = unpack (take 4 (drop 16 payload));
          offset = unpack (take 8 (drop 20 payload));
          body = drop header_size payload;
        })
  unfolding decode_file_data
  decode_file_data-ok payload h = ground arith

  -- Every payload of at least 28 bytes is the encoding of what is read from it: the layout has no
  -- slack, so nothing that a peer sends in a chunk's header is dropped or read twice.
  encode-decode_file_data :
      (payload : Bytes) {d : FileData Text}
      → All Byte payload
      → decode_file_data payload ≡ ok d
      → encode_file_data d.transfer_id d.sequence d.offset d.body ≡ ok payload
  encode-decode_file_data payload bytes h =
      let (long, shape) = decode_file_data-ok payload h in
      rw shape (
        encode-parts (take 16 payload) (take 4 (drop 16 payload)) (take 8 (drop 20 payload))
          (drop header_size payload) (omega (arith, length-take 16 payload))
          (omega (arith, length-take 4 (drop 16 payload), length-drop 16 payload))
          (omega (arith, length-take 8 (drop 20 payload), length-drop 20 payload))
          (subst (All Byte) (cut payload) bytes)
        ∙ ap ok (sym (cut payload)))
