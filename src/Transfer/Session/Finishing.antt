-- ===== src/Transfer/Session/Finishing.antt =====
-- core/transfer/session.py: `_handle_done`, which verifies a received file and puts it in place.
pub mod Verified
use peerc.Common.{
  ◌==◌, Bool, true, false, ◌&&◌, Option, none, some, String, str_eq, Result, ok, err,
}
use peerc.Common.Dicts.{lookup}
use peerc.Protocol.Bytes.{Bytes}
use peerc.Protocol.Errors.{invalid_state, transfer_not_found}
use peerc.TransferState.{
  IncomingState, accepted, receiving, verifying, completed, failed, InvalidTransferTransition,
  incoming_transition_to,
}
use peerc.Transfer.Disk.{Disk, Io, discard, finalize_part_file}
use peerc.Transfer.Session.{
  Incoming, Session, checksum_mismatch, received, file_complete_ack, report_once, send,
  notify_complete, forget_incoming,
}

-- The exception that leaves `_handle_done`: the part file is not there.
pub data Uncaught : Type 0 where
  file_not_found : Uncaught

abbrev pub Done : Type 0
Done = Session × Result Uncaught (Unit {0})

-- The two transitions at the start: a transfer without chunks is still `accepted`.
unfoldable pub start_verifying :
    IncomingState → Result (InvalidTransferTransition IncomingState) IncomingState
start_verifying accepted = incoming_transition_to receiving verifying
start_verifying state = incoming_transition_to state verifying

finalized : Io → Session → Incoming → Option Disk → Done
finalized io session transfer none = (session, err file_not_found)
finalized io session transfer (some disk) = (
  notify_complete (record session { disk = discard io transfer.part_path disk })
      (received (record transfer { state = completed }) true (some transfer.dest_path) none),
  ok tt,
)

judged : Io → Session → Incoming → Bool → Done
unfolding finalized
judged io session transfer true =
    let told = send session (file_complete_ack transfer.addr_key transfer.transfer_id true none) in
    finalized io told transfer (finalize_part_file transfer.part_path transfer.dest_path told.disk)
judged io session transfer false =
    let told =
      send session
        (file_complete_ack transfer.addr_key transfer.transfer_id false (some checksum_mismatch)) in
    (
      notify_complete (record told { disk = discard io transfer.part_path told.disk })
          (received (record transfer { state = failed }) false none (some checksum_mismatch)),
      ok tt,
    )

-- `sha256` is hashlib's digest in hexadecimal.
module _ (sha256 : Bytes → String) where
  -- The digest and the count against what the offer said.
  unfoldable pub is_intact : Incoming → Bytes → Bool
  is_intact transfer content =
      str_eq (sha256 content) transfer.expected_checksum && transfer.bytes_received == transfer.size

  hashed : Io → Session → Incoming → Option Bytes → Done
  unfolding judged
  hashed io session transfer none = (session, err file_not_found)
  hashed io session transfer (some content) =
      judged io session transfer (is_intact transfer content)

  done_in_state :
      Io
      → Session
      → String
      → String
      → Incoming
      → Result (InvalidTransferTransition IncomingState) IncomingState
      → Done
  unfolding hashed
  done_in_state io session addr_key key transfer (err e) =
      (report_once session addr_key invalid_state key, ok tt)
  done_in_state io session addr_key key transfer (ok state) =
      let gone = forget_incoming transfer.transfer_id session in
      hashed io gone (record transfer { state = state }) (lookup transfer.part_path gone.disk.files)

  done_found : Io → Session → String → String → Option Incoming → Done
  unfolding done_in_state
  done_found io session addr_key key none =
      (report_once session addr_key transfer_not_found key, ok tt)
  done_found io session addr_key key (some transfer) =
      done_in_state io session addr_key key transfer (start_verifying transfer.state)

  -- `_handle_done`
  unfoldable pub handle_done : Io → Session → String → String → Done
  unfolding done_found
  handle_done io session addr_key transfer_id =
      done_found io session addr_key transfer_id (lookup transfer_id session.incoming)
