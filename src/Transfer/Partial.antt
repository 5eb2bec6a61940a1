-- ===== src/Transfer/Partial.antt =====
-- core/transfer/partial.py: which partial download an offer may resume, from where, and which have
-- expired. The entries of the directory are given as what `read_meta` makes of them, in the order
-- of the scan.
pub mod Best
use peerc.Common.{
  ℕ, ◌+◌, ◌-◌, ◌%◌, ◌*◌, min, List, [], ◌∷◌, Bool, true, false, ◌&&◌, ◌==◌, ltb, Option, none, some,
  length, String, str_eq, if◌then◌else◌,
}
use peerc.Common.Dicts.{lookup}
use peerc.Protocol.Bytes.{Bytes}
use peerc.Transfer.Disk.{Disk, Io, discard}

-- A validated sidecar. `meta_path` and `created_at`, which no function here reads, are left out, and
-- times are whole seconds.
pub record PartialInfo : Type 0 where
  pub part_path : String
  pub dest_name : String
  pub peer_device_id : String
  pub filename : String
  pub size : ℕ
  pub checksum : String
  pub committed : ℕ
  pub updated_at : ℕ

-- What identifies an offer: the authenticated peer, the name, the size and the digest.
pub record Offer : Type 0 where
  pub peer_device_id : String
  pub filename : String
  pub size : ℕ
  pub checksum : String

-- `PARTIAL_MAX_AGE_SECONDS`
abbrev pub partial_max_age : ℕ
partial_max_age = 7 * 24 * 3600

-- The four fields of the sidecar against the offer's.
unfoldable pub is_for : Offer → PartialInfo → Bool
is_for offer info =
    str_eq info.peer_device_id offer.peer_device_id
    && str_eq info.filename offer.filename
    && info.size == offer.size
    && str_eq info.checksum offer.checksum

-- `_part_is_usable`: the part file is there. Links are not modelled.
unfoldable pub part_is_usable : Disk → String → Bool
part_is_usable disk path = elim (lookup path disk.files) [ none ↦ false | some content ↦ true ]

-- The later of the best one so far and a new one.
unfoldable pub better : Option PartialInfo → PartialInfo → Option PartialInfo
better none info = some info
better (some best) info = if ltb best.updated_at info.updated_at then some info else some best

-- The loop of `find_resumable`.
unfoldable pub find_from :
    Disk → Offer → Option PartialInfo → List (Option PartialInfo) → Option PartialInfo
find_from disk offer best [] = best
find_from disk offer best (none ∷ entries) = find_from disk offer best entries
find_from disk offer best (some info ∷ entries) =
    find_from disk offer
      (if is_for offer info && part_is_usable disk info.part_path then better best info else best)
      entries

-- `find_resumable`
unfoldable pub find_resumable : Disk → Offer → List (Option PartialInfo) → Option PartialInfo
find_resumable disk offer entries = find_from disk offer none entries

-- `resume_offset_for`
unfoldable pub resume_offset_for : Disk → PartialInfo → ℕ → ℕ
resume_offset_for disk info chunk_size = elim (lookup info.part_path disk.files) [
  | none ↦ 0
  | some content ↦
      let trusted = min (min info.committed (length content)) info.size in
      trusted - trusted % chunk_size
]

-- `now - updated_at > max_age`
unfoldable pub is_expired : ℕ → ℕ → PartialInfo → Bool
is_expired now max_age info = ltb (info.updated_at + max_age) now

-- `sweep_expired`, with the part paths that it returns.
unfoldable pub sweep_expired : Io → ℕ → ℕ → List (Option PartialInfo) → Disk → Disk × List String
sweep_expired io now max_age [] disk = (disk, [])
sweep_expired io now max_age (none ∷ entries) disk = sweep_expired io now max_age entries disk
sweep_expired io now max_age (some info ∷ entries) disk =
    let swept = sweep_expired io now max_age entries (discard io info.part_path disk) in
    let kept = sweep_expired io now max_age entries disk in
    if is_expired now max_age info then (swept.0, info.part_path ∷ swept.1) else kept
