-- ===== src/Transfer/Session/Receiving.antt =====
-- core/transfer/session.py: the receiver's `_handle_chunk`, with what it calls to check, store,
-- commit and abort.
pub mod Cases
pub mod Chunks
pub mod Strays
use peerc.Common.{
  ℕ, ◌+◌, ◌-◌, ◌*◌, ◌++◌, Bool, true, false, ◌&&◌, ◌||◌, not, Option, none, some, length, String,
  str_eq, ◌==◌, ltb, leb, if◌then◌else◌, Result, ok, err,
}
use peerc.Common.Dicts.{lookup}
use peerc.Protocol.Bytes.{Bytes}
use peerc.Protocol.Binary.{FileData}
use peerc.Protocol.Errors.{invalid_state, transfer_not_found}
use peerc.TransferState.{
  IncomingState, receiving, failed, InvalidTransferTransition, incoming_transition_to,
}
use peerc.Transfer.Paths.{basename}
use peerc.Transfer.Disk.{
  Disk, Io, Sidecar, whole_chunks, write_file, truncate_file, remove_file, discard, write_meta,
}
use peerc.Transfer.Session.{
  Incoming, Session, Reason, os_error, out_of_order_chunk, declared_size_exceeded, disk_full,
  received, file_complete_ack, report_once, send, notify_complete, notify_progress, forget_incoming,
  put_incoming,
}

abbrev pub commit_interval : ℕ
commit_interval = 4 * 1024 * 1024

-- The sidecar that describes a transfer.
abbrev pub sidecar_of : Incoming → String → ℕ → Sidecar
sidecar_of transfer device committed = record {
  peer_device_id = device;
  filename = transfer.filename;
  size = transfer.size;
  checksum = transfer.expected_checksum;
  dest_name = basename transfer.dest_path;
  committed = committed;
}

-- A device id that is there: `None` and the empty text are both false in Python.
abbrev pub given : Option String → Option String
given none = none
given (some device) = if str_eq device "" then none else some device

abbrev restarted : Incoming → Incoming
restarted transfer = record transfer {
  bytes_received = 0;
  expected_chunk_index = 0;
  resume_offset = 0;
  last_committed = 0;
  position = 0;
}

-- A transition whose `InvalidTransferTransition` is passed over.
abbrev settle_state :
    Incoming → Result (InvalidTransferTransition IncomingState) IncomingState → Incoming
settle_state transfer (ok state) = record transfer { state = state }
settle_state transfer (err e) = transfer

-- What `_abort_incoming` leaves of the files.
unfoldable pub abort_files : Io → Incoming → Disk → Disk
abort_files io transfer disk =
    let kept = if str_eq transfer.part_path "" then disk else discard io transfer.part_path disk in
    remove_file io transfer.dest_path kept

-- `_abort_incoming`
unfoldable pub abort_incoming : Io → Session → Incoming → Reason → Session
abort_incoming io session transfer reason =
    let gone = forget_incoming transfer.transfer_id session in
    let cleaned = record gone { disk = abort_files io transfer gone.disk } in
    let resolved = settle_state transfer (incoming_transition_to transfer.state failed) in
    notify_complete
      (send cleaned (file_complete_ack transfer.addr_key transfer.transfer_id false (some reason)))
      (received resolved false none (some reason))

-- `get_peer_device_id` is the connection manager's.
module _ (get_peer_device_id : String → Option String) where
  -- `transfer.peer_device_id or getter(transfer.addr_key)`
  abbrev pub device_of : Incoming → Option String
  device_of transfer =
      if str_eq transfer.peer_device_id ""
      then given (get_peer_device_id transfer.addr_key)
      else some transfer.peer_device_id

  abbrev commit_for : Io → Disk → Incoming → Option String → Disk × Incoming
  commit_for io disk transfer none = (disk, transfer)
  commit_for io disk transfer (some device) =
      if str_eq transfer.part_path "" || not io.syncs then (disk, transfer) else (
        write_meta io transfer.part_path
            (sidecar_of transfer device (whole_chunks transfer.bytes_received)) disk,
        record transfer { last_committed = whole_chunks transfer.bytes_received },
      )

  -- `_checkpoint_incoming`
  unfoldable pub checkpoint_incoming : Io → Disk → Incoming → Disk × Incoming
  checkpoint_incoming io disk transfer = commit_for io disk transfer (device_of transfer)

  abbrev record_restart : Io → Incoming → Disk → Option String → Disk
  record_restart io transfer disk none = disk
  record_restart io transfer disk (some device) =
      write_meta io transfer.part_path (sidecar_of transfer device 0) disk

  -- A sender that starts from the beginning although a resume was offered.
  unfoldable pub restart : Io → Disk → Incoming → Result Reason (Disk × Incoming)
  restart io disk transfer =
      if io.truncates
      then ok (
        record_restart io transfer (truncate_file transfer.part_path disk)
            (given (get_peer_device_id transfer.addr_key)),
        restarted transfer,
      )
      else err os_error

  -- The check of the first chunk of a transfer, with the restart.
  unfoldable pub align : Io → Disk → Incoming → FileData String → Result Reason (Disk × Incoming)
  align io disk transfer message =
      let seen = record transfer { first_chunk_received = true } in
      if ltb 0 transfer.resume_offset && not transfer.first_chunk_received
      then if message.sequence == transfer.expected_chunk_index
          && message.offset == transfer.bytes_received
        then ok (disk, seen)
        else if message.sequence == 0 && message.offset == 0
        then restart io disk seen
        else err out_of_order_chunk
      else ok (disk, seen)

  -- The chunk written, counted, and committed when enough has come.
  unfoldable pub store : Io → Disk → Incoming → Bytes → Disk × Incoming
  store io disk transfer chunk =
      let written = write_file transfer.position transfer.part_path chunk disk in
      let counted = record transfer {
        bytes_received = transfer.bytes_received + length chunk;
        expected_chunk_index = transfer.expected_chunk_index + 1;
        position = transfer.position + length chunk;
      } in
      if leb commit_interval (counted.bytes_received - counted.last_committed)
      then checkpoint_incoming io written counted
      else (written, counted)

  -- The checks that every chunk passes before it is stored.
  unfoldable pub accept_chunk :
      Io → Disk → Incoming → FileData String → Result Reason (Disk × Incoming)
  accept_chunk io disk transfer message =
      if not (message.sequence == transfer.expected_chunk_index)
        || not (message.offset == transfer.bytes_received)
      then err out_of_order_chunk
      else if ltb transfer.size (transfer.bytes_received + length message.body)
      then err declared_size_exceeded
      else if not io.writes
      then err disk_full
      else ok (store io disk transfer message.body)

  after_store : Io → Session → String → Incoming → Result Reason (Disk × Incoming) → Session
  after_store io session key transfer (err reason) = abort_incoming io session transfer reason
  after_store io session key transfer (ok (disk, stored)) =
      notify_progress (put_incoming key stored (record session { disk = disk })) stored.transfer_id
        stored.bytes_received stored.size

  after_align :
      Io → Session → FileData String → Incoming → Result Reason (Disk × Incoming) → Session
  unfolding after_store
  after_align io session message transfer (err reason) = abort_incoming io session transfer reason
  after_align io session message transfer (ok (disk, aligned)) =
      after_store io (record session { disk = disk }) message.transfer_id aligned
        (accept_chunk io disk aligned message)

  chunk_in_state :
      Io
      → Session
      → String
      → FileData String
      → Incoming
      → Result (InvalidTransferTransition IncomingState) IncomingState
      → Session
  unfolding after_align
  chunk_in_state io session addr_key message transfer (err e) =
      report_once session addr_key invalid_state message.transfer_id
  chunk_in_state io session addr_key message transfer (ok state) =
      let entered = record transfer { state = state } in
      after_align io session message entered (align io session.disk entered message)

  chunk_found : Io → Session → String → FileData String → Option Incoming → Session
  unfolding chunk_in_state
  chunk_found io session addr_key message none =
      report_once session addr_key transfer_not_found message.transfer_id
  chunk_found io session addr_key message (some transfer) =
      chunk_in_state io session addr_key message transfer
        (incoming_transition_to transfer.state receiving)

  -- `_handle_chunk`
  unfoldable pub handle_chunk : Io → Session → String → FileData String → Session
  unfolding chunk_found
  handle_chunk io session addr_key message =
      chunk_found io session addr_key message (lookup message.transfer_id session.incoming)
