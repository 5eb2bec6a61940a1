-- ===== src/Transfer/Partial/Best.antt =====
-- What `find_resumable`, `resume_offset_for` and `sweep_expired` pick.
use peerc.Common.{
  ◌≡◌, ◌≢◌, refl, sym, ap, ◌∙◌, ◌⊎◌, inl, inr, ℕ, ◌-◌, ◌%◌, ◌*◌, ◌/◌, ltb→lt, ◌≤◌, ◌<◌, min, List,
  [], ◌∷◌, All, true, false, ◌&&◌, ltb, Option, none, Option-cases, eq_iff, ==_iff, ◌↔◌, some,
  length, String, arith, Bool-cases,
}
use native.Mathlib.Nat.{div-add-mod, mul-mod_right, le-div_iff_mul-le, mul-le-mul_right}
use peerc.Common.Dicts.{lookup}
use peerc.Protocol.Bytes.{Bytes}
use peerc.Transfer.Disk.{Disk, Io, discard}
use peerc.Transfer.Disk.Frame.{discard-files, remove_file-elsewhere}
use peerc.Transfer.Partial.{
  PartialInfo, Offer, is_for, part_is_usable, better, find_from, find_resumable, resume_offset_for,
  is_expired, sweep_expired,
}

-- The entry has the peer, the name, the size and the digest of the offer.
abbrev pub IsFor : Offer → PartialInfo → Type 0
IsFor offer info =
    (info.peer_device_id ≡ offer.peer_device_id)
    × (info.filename ≡ offer.filename)
    × (info.size ≡ offer.size)
    × (info.checksum ≡ offer.checksum)

-- The entry is for the offer and its part file is there.
abbrev pub Fits : Disk → Offer → PartialInfo → Type 0
Fits disk offer info =
    IsFor offer info × ((content : Bytes) × (lookup info.part_path disk.files ≡ some content))

is_for-iff-IsFor :
    (offer : Offer) (info : PartialInfo) → (is_for offer info ≡ true) ↔ IsFor offer info
unfolding is_for
is_for-iff-IsFor offer info =
    let peers = eq_iff info.peer_device_id offer.peer_device_id in
    let names = eq_iff info.filename offer.filename in
    let digests = eq_iff info.checksum offer.checksum in
    let sizes = ==_iff info.size offer.size in ground (arith, peers, names, digests, sizes)

part_is_usable_iff :
    (disk : Disk) (path : String)
    → (part_is_usable disk path ≡ true)
      ↔ ((content : Bytes) × (lookup path disk.files ≡ some content))
unfolding part_is_usable
part_is_usable_iff disk path = elim (Option-cases (lookup path disk.files)) [
  | inl missing ↦ (λ h. absurd (ground arith), λ (content, h). absurd (ground arith))
  | inr (content, there) ↦ (λ h. (content, there), λ _. ground arith)
]

-- No entry that fits is later.
abbrev pub NoLater : Disk → Offer → ℕ → List (Option PartialInfo) → Type 0
NoLater disk offer time entries =
    All
      (λ (entry : Option PartialInfo).
        (info : PartialInfo) → entry ≡ some info → Fits disk offer info → info.updated_at ≤ time)
      entries

both_parts :
    (disk : Disk) (offer : Offer) (info : PartialInfo)
    → (is_for offer info && part_is_usable disk info.part_path) ≡ true
    → Fits disk offer info
both_parts disk offer info h =
    let (for_offer, usable) : (is_for offer info ≡ true)
        × (part_is_usable disk info.part_path ≡ true) =
      ground arith in
    ((is_for-iff-IsFor offer info).0 for_offer, (part_is_usable_iff disk info.part_path).0 usable)

not_for :
    (disk : Disk) (offer : Offer) (info other : PartialInfo)
    → some info ≡ some other
    → Fits disk offer other
    → (is_for offer info && part_is_usable disk info.part_path) ≡ false
    → ⊥
not_for disk offer info other e (for_offer, there) h =
    let same : info ≡ other = ground arith in
    let skipped = rw same at (h) in
    let fits : is_for offer other ≡ true = (is_for-iff-IsFor offer other).1 for_offer in
    let usable = (part_is_usable_iff disk other.part_path).1 there in ground arith

at_most :
    (info other : PartialInfo) (time : ℕ)
    → some info ≡ some other
    → info.updated_at ≤ time
    → other.updated_at ≤ time
at_most info other time e h = let same : info ≡ other = ground arith in rw (sym same) h

-- The result is the best one so far, or an entry that fits, and nothing that fits is later.
find_from-best :
    (disk : Disk) (offer : Offer) (entries : List (Option PartialInfo)) (best : PartialInfo)
    → Fits disk offer best
    → (found : PartialInfo) × (find_from disk offer (some best) entries ≡ some found)
      × Fits disk offer found
      × (best.updated_at ≤ found.updated_at)
      × NoLater disk offer found.updated_at entries
unfolding find_from better
find_from-best disk offer [] best fits = (best, refl, fits, omega arith, tt)
find_from-best disk offer (none ∷ entries) best fits =
    let (found, result, good, later, none_later) = find_from-best disk offer entries best fits in
    (found, result, good, later, (λ info e. absurd (ground arith), none_later))
find_from-best disk offer (some info ∷ entries) best fits =
    elim (Bool-cases (is_for offer info && part_is_usable disk info.part_path)) [
      | inr skip ↦
          let step : find_from disk offer (some best) (some info ∷ entries)
              ≡ find_from disk offer (some best) entries =
            rw (skip) refl in
          let (found, result, good, later, none_later) =
            find_from-best disk offer entries best fits in
          (
            found,
            step ∙ result,
            good,
            later,
            (λ other e also. absurd (not_for disk offer info other e also skip), none_later),
          )
      | inl fit ↦ elim (Bool-cases (ltb best.updated_at info.updated_at)) [
        | inl newer ↦
            let step : find_from disk offer (some best) (some info ∷ entries)
                ≡ find_from disk offer (some info) entries =
              rw (fit, newer) refl in
            let (found, result, good, later, none_later) =
              find_from-best disk offer entries info (both_parts disk offer info fit) in
            (
              found,
              step ∙ result,
              good,
              omega (arith, ltb→lt _ _ newer, later),
              (λ other e also. at_most info other found.updated_at e later, none_later),
            )
        | inr older ↦
            let step : find_from disk offer (some best) (some info ∷ entries)
                ≡ find_from disk offer (some best) entries =
              rw (fit, older) refl in
            let (found, result, good, later, none_later) =
              find_from-best disk offer entries best fits in
            let below : info.updated_at ≤ found.updated_at = ground arith in
            (
              found,
              step ∙ result,
              good,
              later,
              (λ other e also. at_most info other found.updated_at e below, none_later),
            )
      ]
    ]

-- The loop before anything was found.
find_from-none :
    (disk : Disk) (offer : Offer) (entries : List (Option PartialInfo))
    → ((find_from disk offer none entries ≡ none)
        × All
            (λ (entry : Option PartialInfo).
              (info : PartialInfo) → entry ≡ some info → Fits disk offer info → ⊥)
            entries)
      ⊎ ((found : PartialInfo) × (find_from disk offer none entries ≡ some found)
          × Fits disk offer found
          × NoLater disk offer found.updated_at entries)
unfolding find_from better
find_from-none disk offer [] = inl (refl, tt)
find_from-none disk offer (none ∷ entries) = elim (find_from-none disk offer entries) [
  | inl (result, nothing) ↦ inl (result, (λ info e. absurd (ground arith), nothing))
  | inr (found, result, good, none_later) ↦
      inr (found, result, good, (λ info e. absurd (ground arith), none_later))
]
find_from-none disk offer (some info ∷ entries) =
    elim (Bool-cases (is_for offer info && part_is_usable disk info.part_path)) [
      | inr skip ↦
          let step : find_from disk offer none (some info ∷ entries)
              ≡ find_from disk offer none entries =
            rw (skip) refl in
          elim (find_from-none disk offer entries) [
            | inl (result, nothing) ↦ inl (
              step ∙ result,
              (λ other e also. not_for disk offer info other e also skip, nothing),
            )
            | inr (found, result, good, none_later) ↦ inr (
              found,
              step ∙ result,
              good,
              (λ other e also. absurd (not_for disk offer info other e also skip), none_later),
            )
          ]
      | inl fit ↦
          let step : find_from disk offer none (some info ∷ entries)
              ≡ find_from disk offer (some info) entries =
            rw (fit) refl in
          let (found, result, good, later, none_later) =
            find_from-best disk offer entries info (both_parts disk offer info fit) in
          inr (
            found,
            step ∙ result,
            good,
            (λ other e also. at_most info other found.updated_at e later, none_later),
          )
    ]

-- `find_resumable` answers with an entry that has the peer, the name, the size and the digest of the
-- offer and whose part file is there, and no such entry was updated later; or it answers None, and
-- then there is no such entry.
pub find_resumable-latest :
    (disk : Disk) (offer : Offer) (entries : List (Option PartialInfo))
    → ((find_resumable disk offer entries ≡ none)
        × All
            (λ (entry : Option PartialInfo).
              (info : PartialInfo) → entry ≡ some info → Fits disk offer info → ⊥)
            entries)
      ⊎ ((found : PartialInfo) × (find_resumable disk offer entries ≡ some found)
          × Fits disk offer found
          × NoLater disk offer found.updated_at entries)
unfolding find_resumable
find_resumable-latest disk offer entries = find_from-none disk offer entries

resume_offset-is :
    (disk : Disk) (info : PartialInfo) (chunk_size : ℕ) (content : Bytes)
    → lookup info.part_path disk.files ≡ some content
    → let trusted = min (min info.committed (length content)) info.size in
      resume_offset_for disk info chunk_size ≡ trusted - trusted % chunk_size
unfolding resume_offset_for
resume_offset-is disk info chunk_size content found = ground arith

-- A resume starts at the largest multiple of the chunk size, which is not 0, that is at most what
-- the sidecar says is committed, what the part file holds, and the size of the file.
pub resume_offset_trusted :
    (disk : Disk) (info : PartialInfo) (chunk_size : ℕ) (content : Bytes) (other : ℕ)
    → 0 < chunk_size
    → lookup info.part_path disk.files ≡ some content
    → other * chunk_size ≤ info.committed
    → other * chunk_size ≤ length content
    → other * chunk_size ≤ info.size
    → let offset = resume_offset_for disk info chunk_size in
      (offset % chunk_size ≡ 0)
      × (offset ≤ info.committed)
      × (offset ≤ length content)
      × (offset ≤ info.size)
      × (other * chunk_size ≤ offset)
resume_offset_trusted disk info chunk_size content other some_size found flushed held total =
    let trusted = min (min info.committed (length content)) info.size in
    let step = resume_offset-is disk info chunk_size content found in
    let whole : trusted - trusted % chunk_size ≡ chunk_size * (trusted / chunk_size) =
      omega (arith, div-add-mod trusted chunk_size) in
    let below : other * chunk_size ≤ trusted = omega arith in
    let fewer : other ≤ trusted / chunk_size = (le-div_iff_mul-le some_size).1 below in
    let last : other * chunk_size ≤ chunk_size * (trusted / chunk_size) =
      omega (arith, mul-le-mul_right chunk_size fewer) in
    (
      ap (λ (n : ℕ). n % chunk_size) (step ∙ whole)
          ∙ mul-mod_right chunk_size (trusted / chunk_size),
      omega (arith, step),
      omega (arith, step),
      omega (arith, step),
      omega (arith, step, whole, last),
    )

-- A sweep leaves the content of every file that is not the part file of a sidecar older than the
-- limit.
sweep_expired_reach :
    (io : Io) (now max_age : ℕ) (entries : List (Option PartialInfo)) (disk : Disk) (r : String)
    → All
        (λ (entry : Option PartialInfo).
          (info : PartialInfo)
          → entry ≡ some info
          → is_expired now max_age info ≡ true
          → r ≢ info.part_path)
        entries
    → lookup r (sweep_expired io now max_age entries disk).0.files ≡ lookup r disk.files
unfolding sweep_expired
sweep_expired_reach io now max_age [] disk r off = refl
sweep_expired_reach io now max_age (none ∷ entries) disk r off =
    sweep_expired_reach io now max_age entries disk r off.1
sweep_expired_reach io now max_age (some info ∷ entries) disk r off =
    elim (Bool-cases (is_expired now max_age info)) [
      | inr fresh ↦ rw (fresh) (sweep_expired_reach io now max_age entries disk r off.1)
      | inl old ↦ rw (old) (
          sweep_expired_reach io now max_age entries (discard io info.part_path disk) r off.1
          ∙ ap (lookup r) (discard-files io info.part_path disk)
          ∙ remove_file-elsewhere io info.part_path disk r (off.0 info refl old))
    ]
