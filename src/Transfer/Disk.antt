-- ===== src/Transfer/Disk.antt =====
-- The files under the downloads directory, by path: core/transfer/resume.py and the sidecars of
-- core/transfer/partial.py. A call that fails in the operating system (`OSError`) leaves them as
-- they are.
pub mod Frame
use peerc.Common.{
  ◌≡◌, refl, ap, sym, ◌∙◌, ℕ, ◌+◌, ◌-◌, ◌%◌, [], ◌++◌, Bool, Option, none, some, length, take, drop,
  replicate, if◌then◌else◌, String, arith, take-append_at, drop-append_past, drop-nil,
}
use mathlib.Core.List.{append-nil}
use Prim.Native.String.{◌++◌ as text_append}
use peerc.Common.Dicts.{Dict, lookup, insert, remove}
use peerc.Protocol.Bytes.{Bytes}
use peerc.Transfer.Chunker.{default_chunk_size}

-- The record that `write_meta` stores, less the times and the version.
pub record Sidecar : Type 0 where
  pub peer_device_id : String
  pub filename : String
  pub size : ℕ
  pub checksum : String
  pub dest_name : String
  pub committed : ℕ

pub record Disk : Type 0 where
  pub files : Dict Bytes
  pub sidecars : Dict Sidecar

-- Which calls into the operating system succeed.
pub record Io : Type 0 where
  pub truncates : Bool
  pub writes : Bool
  pub syncs : Bool
  pub stores_meta : Bool
  pub removes : String → Bool

-- `f.write(data)` on a handle at a position: past the end of the file it fills with zeros.
abbrev pub write_at : ℕ → Bytes → Bytes → Bytes
write_at position chunk content =
    take position (content ++ replicate (position - length content) 0)
    ++ chunk
    ++ drop (position + length chunk) content

write_found : ℕ → String → Bytes → Disk → Option Bytes → Disk
write_found position path chunk disk none = disk
write_found position path chunk disk (some content) = record disk {
  files = insert path (write_at position chunk content) disk.files;
}

-- The same on the file at a path. A file that was removed under its handle stays removed.
unfoldable pub write_file : ℕ → String → Bytes → Disk → Disk
unfolding write_found
write_file position path chunk disk = write_found position path chunk disk (lookup path disk.files)

truncate_found : String → Disk → Option Bytes → Disk
truncate_found path disk none = disk
truncate_found path disk (some content) = record disk { files = insert path [] disk.files }

-- `f.truncate(0)`.
unfoldable pub truncate_file : String → Disk → Disk
unfolding truncate_found
truncate_file path disk = truncate_found path disk (lookup path disk.files)

-- `os.remove`, with its `OSError` passed over.
unfoldable pub remove_file : Io → String → Disk → Disk
remove_file io path disk =
    if io.removes path then record disk { files = remove path disk.files } else disk

-- `discard`: the part file and its sidecar.
unfoldable pub discard : Io → String → Disk → Disk
discard io part_path disk =
    let gone = remove_file io part_path disk in
    if io.removes (text_append part_path ".meta")
    then record gone { sidecars = remove part_path gone.sidecars }
    else gone

-- `write_meta`, with the exceptions that its callers pass over. A sidecar is kept under the path of
-- its part file.
unfoldable pub write_meta : Io → String → Sidecar → Disk → Disk
write_meta io part_path sidecar disk =
    if io.stores_meta
    then record disk { sidecars = insert part_path sidecar disk.sidecars }
    else disk

-- `bytes_received - (bytes_received % CHUNK_SIZE)`
abbrev pub whole_chunks : ℕ → ℕ
whole_chunks bytes_received = bytes_received - bytes_received % default_chunk_size

move_found : String → String → Disk → Option Bytes → Option Disk
move_found part_path dest_path disk none = none
move_found part_path dest_path disk (some content) =
    some (record disk { files = remove part_path (insert dest_path content disk.files) })

-- `finalize_part_file`: no part file raises, here `none`.
unfoldable pub finalize_part_file : String → String → Disk → Option Disk
unfolding move_found
finalize_part_file part_path dest_path disk =
    move_found part_path dest_path disk (lookup part_path disk.files)

take-all : (xs : Bytes) (n : ℕ) → length xs ≡ n → take n (xs ++ []) ≡ xs
take-all xs n h = take-append_at n xs [] h

drop-past : (xs : Bytes) (n m : ℕ) → length xs ≡ n → drop (n + m) xs ≡ []
drop-past xs n m h =
    ap (λ ys. drop (n + m) ys) (sym (append-nil xs)) ∙ drop-append_past n m xs [] h ∙ drop-nil m

-- At the end of the file a write appends.
pub write_at_end :
    (content chunk : Bytes) → write_at (length content) chunk content ≡ content ++ chunk
write_at_end content chunk =
    let none_missing : length content - length content ≡ 0 = omega arith in
    rw (
      none_missing,
      take-all content (length content) refl,
      drop-past content (length content) (length chunk) refl,
      append-nil,
    )
