-- ===== src/Protocol/Frame/Limits.antt =====
-- What a reader takes from any stream, also a hostile or a broken one.
use peerc.Common.{
  dec_lt, All-append, ◌==◌, ◌||◌, ◌≡◌, sym, ap, ◌∙◌, ℕ, ◌+◌, ◌-◌, ◌<◌, ◌≤◌, ◌^◌, ◌++◌, length, take,
  take-append-drop, take-append_past, length-append, length-take, lt→ltb, ok, err, bind-eq-ok, All,
  arith, ltb, inl, inr, Bool-cases,
}
use peerc.Protocol.Bytes.{
  Byte, Bytes, pack, unpack, length-pack, unpack-pack, unpack-lt, pack-unpack,
}
use peerc.Protocol.Frame.{
  incomplete_read, length_prefix_size, max_message_size, without_flag, readexactly, Kind, json,
  binary, kind_of, read_payload, read_raw, Json, Frame, message, chunk, encode_any, read_any_frame,
}
use peerc.Protocol.Frame.RoundTrip.{
  readexactly-append, header_number, IsReadable, header-length, header-fits, encode_frame-ok,
  encode_binary_frame-ok,
}

readexactly-ok :
    (n : ℕ) (reader : Bytes) {got rest : Bytes}
    → readexactly n reader ≡ ok (got, rest)
    → (length got ≡ n) × (reader ≡ got ++ rest)
unfolding readexactly
readexactly-ok n reader h = ground (arith, length-take n reader, take-append-drop n reader)

readexactly-short :
    (n : ℕ) (reader : Bytes) → length reader < n → readexactly n reader ≡ err incomplete_read
unfolding readexactly
readexactly-short n reader h = rw (lt→ltb _ _ h)

header-of : (n : ℕ) → n < 256 ^ length_prefix_size → header_number (kind_of n) (without_flag n) ≡ n
header-of n h = ground arith

read_payload-ok :
    (n : ℕ) (reader : Bytes) {k : Kind} {payload rest : Bytes}
    → read_payload n reader ≡ ok ((k, payload), rest)
    → (kind_of n ≡ k)
      × (length payload ≡ without_flag n)
      × (0 < length payload)
      × (length payload ≤ max_message_size)
      × (reader ≡ payload ++ rest)
unfolding read_payload
read_payload-ok n reader h =
    elim (Bool-cases (without_flag n == 0 || ltb max_message_size (without_flag n))) [
      | inl refused ↦ cc (rw refused at h)
      | inr allowed ↦
          let (got, taken, same) =
            bind-eq-ok (readexactly (without_flag n) reader) (λ got. ok ((kind_of n, got.0), got.1))
              (rw allowed at h) in
          let (len, shape) = readexactly-ok (without_flag n) reader taken in ground arith
    ]

header-exact :
    (header : Bytes) {k : Kind} {n : ℕ}
    → All Byte header
    → length header ≡ length_prefix_size
    → kind_of (unpack header) ≡ k
    → n ≡ without_flag (unpack header)
    → pack length_prefix_size (header_number k n) ≡ header
header-exact header bytes four kind len =
    let small : unpack header < 256 ^ length_prefix_size = rw four at (unpack-lt header bytes) in
    let number = header-of (unpack header) small in
    rw (← kind, len, number) (rw four at (pack-unpack header bytes))

-- Whatever the bytes, a frame that is read has between 1 byte and 100 MB of payload, and is the only
-- encoding of it: the bytes taken from the reader are the header for that kind and length, and the
-- payload.
pub read_raw_sound :
    (reader : Bytes) {k : Kind} {payload rest : Bytes}
    → All Byte reader
    → read_raw reader ≡ ok ((k, payload), rest)
    → (0 < length payload)
      × (length payload ≤ max_message_size)
      × (reader ≡ pack length_prefix_size (header_number k (length payload)) ++ (payload ++ rest))
unfolding read_raw
read_raw_sound reader {k} {payload} {rest} bytes h =
    let (got, taken, others) =
      bind-eq-ok (readexactly length_prefix_size reader) (λ got. read_payload (unpack got.0) got.1)
        h in
    let (four, shape) = readexactly-ok length_prefix_size reader taken in
    let (kind, len, nonempty, fits, shape') = read_payload-ok (unpack got.0) got.1 others in
    let header : All Byte got.0 = ((All-append Byte got.0 got.1).0 (rw shape at bytes)).0 in
    (
      nonempty,
      fits,
      shape
          ∙ ap (λ l. got.0 ++ l) shape'
          ∙ ap (λ l. l ++ (payload ++ rest)) (sym (header-exact got.0 header four kind len)),
    )

read_payload-truncated :
    (k : Kind) (n : ℕ) (reader : Bytes)
    → 0 < n
    → n ≤ max_message_size
    → length reader < n
    → read_payload (header_number k n) reader ≡ err incomplete_read
unfolding read_payload
read_payload-truncated k n reader nonempty fits short =
    rw (header-length k n fits) (ground (arith, readexactly-short n reader short))

take-frame :
    (header payload : Bytes) (n : ℕ)
    → length header ≤ n
    → take n (header ++ payload) ≡ header ++ take (n - length header) payload
take-frame header payload n h =
    let past : n ≡ length header + (n - length header) = omega arith in
    ap (λ k. take k (header ++ payload)) past ∙ take-append_past header payload (n - length header)

read_raw-truncated :
    (k : Kind) (payload : Bytes) (n : ℕ)
    → 0 < length payload
    → length payload ≤ max_message_size
    → n < length_prefix_size + length payload
    → read_raw (take n (pack length_prefix_size (header_number k (length payload)) ++ payload))
      ≡ err incomplete_read
unfolding read_raw
read_raw-truncated k payload n nonempty fits short =
    let number = header_number k (length payload) in
    let header = pack length_prefix_size number in
    let four : length header ≡ 4 = length-pack length_prefix_size number in
    elim (dec_lt n length_prefix_size) [
      | yes early ↦ rw (
          readexactly-short length_prefix_size (take n (header ++ payload))
            (omega (arith, length-take n (header ++ payload))))
      | no late ↦ rw (take-frame header payload n (omega arith)) (
          rw (readexactly-append length_prefix_size header (take (n - length header) payload) four)
            (rw (unpack-pack length_prefix_size number (header-fits k (length payload) fits)) (
              read_payload-truncated k (length payload) (take (n - length header) payload) nonempty
                fits (omega (arith, length-take (n - length header) payload)))))
    ]

within-frame :
    (number : ℕ) (payload : Bytes) {bytes : Bytes} {n : ℕ}
    → bytes ≡ pack length_prefix_size number ++ payload
    → n < length bytes
    → n < length_prefix_size + length payload
within-frame number payload shape short = omega (
  arith,
  ap length shape,
  length-append (pack length_prefix_size number) payload,
  length-pack length_prefix_size number,
)

module _ {Message : Type 0} (codec : Json Message) where
  -- A connection that closes in the middle of a frame, wherever that is, is an incomplete read: no
  -- proper prefix of an encoded frame is taken for a frame or for a malformed one.
  read_any_frame-truncated :
      (frame : Frame Message) {bytes : Bytes} (n : ℕ)
      → encode_any codec frame ≡ ok bytes
      → IsReadable codec frame
      → n < length bytes
      → read_any_frame codec (take n bytes) ≡ err incomplete_read
  unfolding read_any_frame encode_any
  read_any_frame-truncated (message m) n h readable short =
      let (fits, shape) = encode_frame-ok codec m h in
      rw shape (
        rw (
          read_raw-truncated json (codec.dumps m) n (omega (arith, codec.dumps_nonempty m)) fits
            (within-frame (length (codec.dumps m)) (codec.dumps m) shape short)))
  read_any_frame-truncated (chunk payload) n h readable short =
      let (fits, shape) = encode_binary_frame-ok payload h in
      rw shape (
        rw (
          read_raw-truncated binary payload n readable fits
            (within-frame (header_number binary (length payload)) payload shape short)))
