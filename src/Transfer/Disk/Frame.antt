-- ===== src/Transfer/Disk/Frame.antt =====
-- The reach of each file operation: what it does at its own path, and that others keep theirs.
use peerc.Common.{◌≡◌, ◌≢◌, ℕ, [], true, none, some, String, eq_iff, arith, Option-cases, inl, inr}
use peerc.Common.Dicts.{lookup, insert, remove, lookup-insert, lookup-remove}
use peerc.Protocol.Bytes.{Bytes}
use peerc.Transfer.Disk.{
  Disk, Io, Sidecar, write_at, write_file, truncate_file, remove_file, discard, write_meta,
  finalize_part_file,
}

-- Every path but two has the file that it had.
abbrev pub Untouched : String → String → Disk → Disk → Type 0
Untouched p q before after =
    (r : String) → r ≢ p → r ≢ q → lookup r after.files ≡ lookup r before.files

pub write_file-at :
    (position : ℕ) (path : String) (chunk : Bytes) (disk : Disk) {content : Bytes}
    → lookup path disk.files ≡ some content
    → lookup path (write_file position path chunk disk).files
      ≡ some (write_at position chunk content)
unfolding write_file
write_file-at position path chunk disk {content} h =
    ground (
      arith,
      lookup-insert path path (write_at position chunk content) disk.files,
      eq_iff path path,
    )

pub write_file-elsewhere :
    (position : ℕ) (path : String) (chunk : Bytes) (disk : Disk) (r : String)
    → r ≢ path
    → lookup r (write_file position path chunk disk).files ≡ lookup r disk.files
unfolding write_file
write_file-elsewhere position path chunk disk r other =
    elim (Option-cases (lookup path disk.files)) [
      | inl gone ↦ ground arith
      | inr (content, found) ↦
          ground (
            arith,
            lookup-insert path r (write_at position chunk content) disk.files,
            eq_iff path r,
          )
    ]

pub truncate_file-at :
    (path : String) (disk : Disk) {content : Bytes}
    → lookup path disk.files ≡ some content
    → lookup path (truncate_file path disk).files ≡ some []
unfolding truncate_file
truncate_file-at path disk {content} h =
    let empty : Bytes = [] in
    ground (arith, lookup-insert path path empty disk.files, eq_iff path path)

pub truncate_file-elsewhere :
    (path : String) (disk : Disk) (r : String)
    → r ≢ path
    → lookup r (truncate_file path disk).files ≡ lookup r disk.files
unfolding truncate_file
truncate_file-elsewhere path disk r other = elim (Option-cases (lookup path disk.files)) [
  | inl gone ↦ ground arith
  | inr (content, found) ↦
      let empty : Bytes = [] in ground (arith, lookup-insert path r empty disk.files, eq_iff path r)
]

pub remove_file-elsewhere :
    (io : Io) (path : String) (disk : Disk) (r : String)
    → r ≢ path
    → lookup r (remove_file io path disk).files ≡ lookup r disk.files
unfolding remove_file
remove_file-elsewhere io path disk r other =
    ground (arith, lookup-remove path r disk.files, eq_iff path r)

pub remove_file-at :
    (io : Io) (path : String) (disk : Disk)
    → io.removes path ≡ true
    → lookup path (remove_file io path disk).files ≡ none
unfolding remove_file
remove_file-at io path disk works =
    ground (arith, lookup-remove path path disk.files, eq_iff path path)

-- Removing the sidecar leaves the files.
pub discard-files :
    (io : Io) (path : String) (disk : Disk)
    → (discard io path disk).files ≡ (remove_file io path disk).files
unfolding discard
discard-files io path disk = ground arith

pub write_meta-files :
    (io : Io) (path : String) (sidecar : Sidecar) (disk : Disk)
    → (write_meta io path sidecar disk).files ≡ disk.files
unfolding write_meta
write_meta-files io path sidecar disk = ground arith

-- A file that is moved stands at its destination, with the part file gone.
pub finalize_part_file-moves :
    (part dest : String) (disk : Disk) {content : Bytes}
    → lookup part disk.files ≡ some content
    → part ≢ dest
    → (after : Disk) × (finalize_part_file part dest disk ≡ some after)
      × (lookup dest after.files ≡ some content)
      × (lookup part after.files ≡ none)
      × Untouched part dest disk after
unfolding finalize_part_file
finalize_part_file-moves part dest disk {content} h apart = (
  record disk { files = remove part (insert dest content disk.files) },
  ground arith,
  ground (
    arith,
    lookup-remove part dest (insert dest content disk.files),
    lookup-insert dest dest content disk.files,
    eq_iff part dest,
    eq_iff dest dest,
  ),
  ground (arith, lookup-remove part part (insert dest content disk.files), eq_iff part part),
  λ r off_part off_dest. ground (
    arith,
    lookup-remove part r (insert dest content disk.files),
    lookup-insert dest r content disk.files,
    eq_iff part r,
    eq_iff dest r,
  ),
)

pub finalize_part_file-elsewhere :
    (part dest : String) (disk after : Disk) (content : Bytes)
    → lookup part disk.files ≡ some content
    → finalize_part_file part dest disk ≡ some after
    → Untouched part dest disk after
unfolding finalize_part_file
finalize_part_file-elsewhere part dest disk after content h moves r off_part off_dest = ground (
  arith,
  lookup-remove part r (insert dest content disk.files),
  lookup-insert dest r content disk.files,
  eq_iff part r,
  eq_iff dest r,
)

-- The bytes at a path after a removal were there before it.
pub remove_file-was :
    (io : Io) (path r : String) (disk : Disk) (c : Bytes)
    → lookup r (remove_file io path disk).files ≡ some c
    → lookup r disk.files ≡ some c
unfolding remove_file
remove_file-was io path r disk c h = ground (arith, lookup-remove path r disk.files)
