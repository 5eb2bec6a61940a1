-- ===== src/Transfer/Chunker.antt =====
-- core/transfer/chunker.py: a file as a sequence of chunks, from an offset on.
use peerc.Common.{
  ◌≡◌, ℕ, zero, suc, ◌+◌, ◌*◌, ◌/◌, ◌≤◌, ◌<◌, List, [], ◌∷◌, ◌++◌, length, length-take, length-drop,
  take, drop, take-append-drop, ltb, ◌==◌, if◌then◌else◌, Result, ok, err, arith,
}
use peerc.Protocol.Bytes.{Bytes}

abbrev pub default_chunk_size : ℕ
default_chunk_size = 64 * 1024

pub data ChunkerError : Type 0 where
  start_offset_exceeds : ℕ → ℕ → ChunkerError
  zero_division : ChunkerError

pub record Chunk : Type 0 where
  pub sequence_index : ℕ
  pub byte_offset : ℕ
  pub chunk_bytes : Bytes

-- The `while` loop. Each round but the last takes a byte at least, so one round more than the file
-- has bytes left is enough.
unfoldable pub chunk_loop : ℕ → ℕ → ℕ → ℕ → Bytes → List Chunk
chunk_loop zero chunk_size sequence_index current_offset rest = []
chunk_loop (suc fuel) chunk_size sequence_index current_offset rest =
    let chunk = take chunk_size rest in
    let more =
      chunk_loop fuel chunk_size (sequence_index + 1) (current_offset + length chunk)
        (drop chunk_size rest) in
    if length chunk == 0
    then []
    else record {
      sequence_index = sequence_index;
      byte_offset = current_offset;
      chunk_bytes = chunk;
    }
      ∷ more

-- All that the generator yields. A `chunk_size` of zero makes Python's `//` raise.
unfoldable pub read_chunks : Bytes → ℕ → ℕ → Result ChunkerError (List Chunk)
read_chunks content start_offset chunk_size =
    if ltb (length content) start_offset
    then err (start_offset_exceeds start_offset (length content))
    else if chunk_size == 0
    then err zero_division
    else ok (
        chunk_loop (length content + 1) chunk_size (start_offset / chunk_size) start_offset
          (drop start_offset content))

-- The bytes of some chunks, joined.
unfoldable pub joined : List Chunk → Bytes
joined [] = []
joined (c ∷ cs) = c.chunk_bytes ++ joined cs

-- Each chunk stands where the ones before it end, is not empty, and has the next sequence number.
unfoldable pub Consecutive : ℕ → ℕ → List Chunk → Type 0
Consecutive sequence offset [] = Unit
Consecutive sequence offset (c ∷ cs) =
    (c.sequence_index ≡ sequence)
    × (c.byte_offset ≡ offset)
    × (0 < length c.chunk_bytes)
    × Consecutive (sequence + 1) (offset + length c.chunk_bytes) cs

joined-chunk_loop :
    (fuel cs seq off : ℕ) (rest : Bytes)
    → 0 < cs
    → length rest < fuel
    → joined (chunk_loop fuel cs seq off rest) ≡ rest
unfolding joined chunk_loop
joined-chunk_loop zero cs seq off rest pos enough = absurd (omega arith)
joined-chunk_loop (suc fuel) cs seq off [] pos enough =
    let none_left : Bytes = [] in ground (arith, length-take cs none_left)
joined-chunk_loop (suc fuel) cs seq off (b ∷ rest) pos enough =
    let whole = b ∷ rest in
    let rec =
      joined-chunk_loop fuel cs (seq + 1) (off + length (take cs whole)) (drop cs whole) pos
        (omega (arith, length-drop cs whole)) in
    ground (arith, length-take cs whole, take-append-drop cs whole)

chunk_loop-Consecutive :
    (fuel cs seq off : ℕ) (rest : Bytes) → Consecutive seq off (chunk_loop fuel cs seq off rest)
unfolding Consecutive chunk_loop
chunk_loop-Consecutive zero cs seq off rest = tt
chunk_loop-Consecutive (suc fuel) cs seq off rest =
    let rec =
      chunk_loop-Consecutive fuel cs (seq + 1) (off + length (take cs rest)) (drop cs rest) in
    ground arith

read_chunks-ok :
    (content : Bytes) (start cs : ℕ)
    → start ≤ length content
    → 0 < cs
    → read_chunks content start cs
      ≡ ok (chunk_loop (length content + 1) cs (start / cs) start (drop start content))
unfolding read_chunks
read_chunks-ok content start cs fits pos = ground arith

-- From an offset within the file, and with chunks of at least one byte, the generator ends; the
-- chunks that it yields join to the rest of the file, none is empty, the first stands at the offset
-- with sequence number offset // chunk_size, and each other follows the one before it.
pub read_chunks-covers :
    (content : Bytes) (start cs : ℕ)
    → start ≤ length content
    → 0 < cs
    → (chunks : List Chunk) × (read_chunks content start cs ≡ ok chunks)
      × (joined chunks ≡ drop start content)
      × Consecutive (start / cs) start chunks
read_chunks-covers content start cs fits pos = (
  chunk_loop (length content + 1) cs (start / cs) start (drop start content),
  read_chunks-ok content start cs fits pos,
  joined-chunk_loop (length content + 1) cs (start / cs) start (drop start content) pos
      (omega (arith, length-drop start content)),
  chunk_loop-Consecutive (length content + 1) cs (start / cs) start (drop start content),
)
