-- ===== src/Transfer/Session/Invariant.antt =====
-- What holds of a session's incoming transfers between the calls of its handlers.
pub mod Handlers
pub mod Done
use peerc.Common.{
  ◌≡◌, ◌≢◌, refl, sym, ap, ◌∙◌, ◌⊎◌, inl, inr, [], ◌++◌, Bool, true, false, Option, none, some,
  String, str_eq, eq_iff, arith, Bool-cases, Option-cases,
}
use peerc.Common.Dicts.{Dict, lookup, insert, remove, lookup-insert, lookup-remove}
use peerc.Protocol.Bytes.{Bytes}
use peerc.Protocol.Binary.{FileData}
use peerc.Protocol.Errors.{ErrorCode}
use peerc.Transfer.Disk.{Disk, Io, discard, remove_file}
use peerc.Transfer.Disk.Frame.{Untouched, remove_file-elsewhere, discard-files}
use peerc.Transfer.Session.{Incoming, Session, Reason, report_once}
use peerc.Transfer.Session.Receiving.{abort_files, abort_incoming, handle_chunk}
use peerc.Transfer.Session.Receiving.Cases.{Holds, OnlyPart, SameOffer}
use peerc.Transfer.Session.Receiving.Chunks.{entered, Stored, handle_chunk-cases}

-- The part file of one transfer is neither the part file nor the destination of the other.
abbrev pub KeepsOff : Incoming → Incoming → Type 0
KeepsOff t u = (t.part_path ≢ u.part_path) × (t.part_path ≢ u.dest_path)

-- Each transfer is registered under its own id, its part file holds exactly the bytes that it
-- counts, and no other transfer writes or removes that file.
abbrev pub Sound : Dict Incoming → Disk → Type 0
Sound incoming disk =
    (k : String) (t : Incoming)
    → lookup k incoming ≡ some t
    → (t.transfer_id ≡ k)
      × ((content : Bytes) × Holds disk t content)
      × ((j : String) (u : Incoming) → lookup j incoming ≡ some u → (j ≡ k) ⊎ KeepsOff t u)

abbrev pub WellFormed : Session → Type 0
WellFormed session = Sound session.incoming session.disk

-- A transfer whose part file was not touched still holds what it held.
Holds-frame :
    (before after : Disk) (t : Incoming) (content : Bytes)
    → lookup t.part_path after.files ≡ lookup t.part_path before.files
    → Holds before t content
    → Holds after t content
Holds-frame before after t content kept (there, long, at, fits, marked) =
    (kept ∙ there, long, at, fits, marked)

clear_of :
    (j k : String) (t u : Incoming) → (j ≡ k) ⊎ KeepsOff t u → str_eq j k ≡ false → KeepsOff t u
clear_of j k t u (inl same) other = absurd (ground (arith, eq_iff j k))
clear_of j k t u (inr clear) other = clear

-- A transfer taken out, with its own files changed in any way.
pub remove-Sound :
    (incoming : Dict Incoming) (before after : Disk) (j : String) (u : Incoming)
    → Sound incoming before
    → lookup j incoming ≡ some u
    → Untouched u.part_path u.dest_path before after
    → Sound (remove j incoming) after
remove-Sound incoming before after j u sound found only k t h = elim (Bool-cases (str_eq j k)) [
  | inl same ↦ absurd (ground (arith, lookup-remove j k incoming, eq_iff j k))
  | inr other ↦
      let was : lookup k incoming ≡ some t = ground (arith, lookup-remove j k incoming) in
      let (own, (content, held), apart) = sound k t was in
      let (off_part, off_dest) = clear_of j k t u (apart j u found) other in
      (
        own,
        (content, Holds-frame before after t content (only t.part_path off_part off_dest) held),
        λ i v g. apart i v (ground (arith, lookup-remove j i incoming)),
      )
]

inserted :
    (incoming : Dict Incoming) (j k : String) (v t : Incoming)
    → lookup k (insert j v incoming) ≡ some t
    → ((j ≡ k) × (v ≡ t)) ⊎ ((str_eq j k ≡ false) × (lookup k incoming ≡ some t))
inserted incoming j k v t h = elim (Bool-cases (str_eq j k)) [
  | inl here ↦ inl (ground (arith, lookup-insert j k v incoming, eq_iff j k))
  | inr other ↦ inr (other, ground (arith, lookup-insert j k v incoming))
]

KeepsOff-same :
    (t u v w : Incoming)
    → SameOffer u v
    → (KeepsOff u w → KeepsOff v w) × (KeepsOff t u → KeepsOff t v)
KeepsOff-same t u v w (id, addr, size, part, dest, sum) = (
  λ clear. (λ e. clear.0 (sym part ∙ e), λ e. clear.1 (sym part ∙ e)),
  λ clear. (λ e. clear.0 (e ∙ part), λ e. clear.1 (e ∙ dest)),
)

-- A transfer changed in place, with only its part file changed.
pub update-Sound :
    (incoming : Dict Incoming) (before after : Disk) (j : String) (u v : Incoming) (content : Bytes)
    → Sound incoming before
    → lookup j incoming ≡ some u
    → SameOffer u v
    → OnlyPart u before after
    → Holds after v content
    → Sound (insert j v incoming) after
update-Sound incoming before after j u v content sound found same only held k t h =
    elim (inserted incoming j k v t h) [
      | inl (key, value) ↦
          let (own, old, apart) = sound j u found in
          let clear_v : (i : String) (w : Incoming)
              → lookup i (insert j v incoming) ≡ some w
              → (i ≡ j) ⊎ KeepsOff v w =
            λ i w g. elim (inserted incoming j i v w g) [
              | inl (again, _) ↦ inl (sym again)
              | inr (other, was) ↦ elim (apart i w was) [
                | inl again ↦ inl again
                | inr clear ↦ inr ((KeepsOff-same t u v w same).0 clear)
              ]
            ] in
          rw (sym key, sym value) (same.0 ∙ own, (content, held), clear_v)
      | inr (other, was) ↦
          let (own, (old, kept), apart) = sound k t was in
          let (off_part, off_dest) = clear_of j k t u (apart j u found) other in
          (
            own,
            (old, Holds-frame before after t old (only t.part_path off_part) kept),
            λ i w g. elim (inserted incoming j i v w g) [
              | inl (key, value) ↦
                  rw (sym key, sym value)
                    (inr
                      ((KeepsOff-same t u v w same).1 (clear_of j k t u (apart j u found) other)))
              | inr (_, there) ↦ apart i w there
            ],
          )
    ]
