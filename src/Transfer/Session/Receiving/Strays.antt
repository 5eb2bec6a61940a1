-- ===== src/Transfer/Session/Receiving/Strays.antt =====
-- A chunk that is not the next one: `_handle_chunk` gives the transfer up.
use peerc.Common.{
  ◌≡◌, ◌≢◌, refl, ap, ◌∙◌, ◌⊎◌, inl, inr, ◌∷◌, [], ◌++◌, true, false, Option, none, some, String,
  eq_iff, arith, Option-cases, ok,
}
use peerc.Common.Dicts.{lookup, lookup-remove}
use peerc.Protocol.Binary.{FileData}
use peerc.TransferState.{receiving, incoming_transition_to}
use peerc.Transfer.Disk.{Disk, Io, remove_file, discard}
use peerc.Transfer.Disk.Frame.{
  Untouched, remove_file-at, remove_file-elsewhere, discard-files, remove_file-was,
}
use peerc.Transfer.Session.{Incoming, Session, out_of_order_chunk, file_complete_ack}
use peerc.Transfer.Session.Receiving.{
  align, accept_chunk, abort_files, abort_incoming, handle_chunk,
}
use peerc.Transfer.Session.Receiving.Cases.{seen}
use peerc.Transfer.Session.Receiving.Chunks.{entered}

-- The chunk is not the one that the transfer waits for.
abbrev pub OutOfPlace : Incoming → FileData String → Type 0
OutOfPlace t message =
    (message.sequence ≢ t.expected_chunk_index) ⊎ (message.offset ≢ t.bytes_received)

-- Nothing of a first chunk after a resume is waited for.
abbrev pub UnderWay : Incoming → Type 0
UnderWay t = (t.resume_offset ≡ 0) ⊎ (t.first_chunk_received ≡ true)

stays_removed :
    (io : Io) (path r : String) (disk : Disk)
    → lookup r disk.files ≡ none
    → lookup r (remove_file io path disk).files ≡ none
stays_removed io path r disk h = elim (Option-cases (lookup r (remove_file io path disk).files)) [
  | inl gone ↦ gone
  | inr (c, found) ↦ absurd (ground (arith, remove_file-was io path r disk c found))
]

-- Where removals work, an abort leaves neither the part file nor the destination.
pub abort_files-at :
    (io : Io) (t : Incoming) (disk : Disk)
    → io.removes t.part_path ≡ true
    → io.removes t.dest_path ≡ true
    → t.part_path ≢ ""
    → (lookup t.part_path (abort_files io t disk).files ≡ none)
      × (lookup t.dest_path (abort_files io t disk).files ≡ none)
unfolding abort_files
abort_files-at io t disk part dest named =
    let kept = discard io t.part_path disk in
    let cleared : lookup t.part_path kept.files ≡ none =
      ap (lookup t.part_path) (discard-files io t.part_path disk)
      ∙ remove_file-at io t.part_path disk part in
    (
      ground (arith, eq_iff t.part_path "", stays_removed io t.dest_path t.part_path kept cleared),
      ground (arith, eq_iff t.part_path "", remove_file-at io t.dest_path kept dest),
    )

-- An abort touches the transfer's own two paths.
pub abort_files-Untouched :
    (io : Io) (t : Incoming) (disk : Disk)
    → Untouched t.part_path t.dest_path disk (abort_files io t disk)
unfolding abort_files
abort_files-Untouched io t disk r off_part off_dest = ground (
  arith,
  remove_file-elsewhere io t.part_path disk r off_part,
  discard-files io t.part_path disk,
  remove_file-elsewhere io t.dest_path (discard io t.part_path disk) r off_dest,
  remove_file-elsewhere io t.dest_path disk r off_dest,
)

module _ (getter : String → Option String) where
  stray-aborts :
      (io : Io) (session : Session) (addr_key : String) (message : FileData String) (t : Incoming)
      → lookup message.transfer_id session.incoming ≡ some t
      → incoming_transition_to t.state receiving ≡ ok receiving
      → UnderWay t
      → OutOfPlace t message
      → handle_chunk getter io session addr_key message
        ≡ abort_incoming io session (seen (entered t)) out_of_order_chunk
  unfolding handle_chunk align accept_chunk
  stray-aborts io session addr_key message t found ready way stray = ground arith

  -- A chunk for a transfer under way whose sequence number or offset is not the next one ends the
  -- transfer: it is no longer registered, neither its part file nor its destination is left where
  -- removals work, the last message sent refuses it as out of order, and the other transfers and
  -- files are as they were.
  pub stray_chunk_aborts :
      (io : Io) (session : Session) (addr_key : String) (message : FileData String) (t : Incoming)
      → lookup message.transfer_id session.incoming ≡ some t
      → t.transfer_id ≡ message.transfer_id
      → incoming_transition_to t.state receiving ≡ ok receiving
      → UnderWay t
      → OutOfPlace t message
      → io.removes t.part_path ≡ true
      → io.removes t.dest_path ≡ true
      → t.part_path ≢ ""
      → let after = handle_chunk getter io session addr_key message in
        (lookup message.transfer_id after.incoming ≡ none)
        × (lookup t.part_path after.disk.files ≡ none)
        × (lookup t.dest_path after.disk.files ≡ none)
        × (after.sent
            ≡ session.sent
              ++ file_complete_ack t.addr_key t.transfer_id false (some out_of_order_chunk) ∷ [])
        × ((j : String)
            → j ≢ message.transfer_id
            → lookup j after.incoming ≡ lookup j session.incoming)
        × Untouched t.part_path t.dest_path session.disk after.disk
  unfolding abort_incoming
  stray_chunk_aborts io session addr_key message t found own ready way stray part dest named =
      let result = stray-aborts io session addr_key message t found ready way stray in
      let (no_part, no_dest) = abort_files-at io (seen (entered t)) session.disk part dest named in
      let id = message.transfer_id in
      rw (result) (
        ground (arith, lookup-remove t.transfer_id id session.incoming, eq_iff t.transfer_id id),
        no_part,
        no_dest,
        refl,
        λ j other.
            ground (arith, lookup-remove t.transfer_id j session.incoming, eq_iff t.transfer_id j),
        abort_files-Untouched io (seen (entered t)) session.disk,
      )
