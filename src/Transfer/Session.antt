-- ===== src/Transfer/Session.antt =====
-- core/transfer/session.py: the state of a FileTransferSession, and what its handlers share.
pub mod Receiving
pub mod Finishing
pub mod Invariant
pub mod Delivery
pub mod Upload
pub mod Failing
pub mod Reports
use Prim.Native.String.{count}
use peerc.Common.{
  ℕ, ◌+◌, List, [], ◌∷◌, ◌++◌, Bool, true, false, ◌&&◌, ◌||◌, not, any, Option, none, some, length,
  drop, String, str_eq, ◌==◌, ltb, if◌then◌else◌, contains, ◌-◌,
}
use peerc.Common.Dicts.{Dict, lookup, insert, remove}
use peerc.TransferState.{IncomingState, OutgoingState}
use peerc.Protocol.Errors.{ErrorCode}
use peerc.Transfer.Disk.{Disk, Io, Sidecar, write_meta, whole_chunks}

-- `IncomingTransfer`. `position` is where its open file handle stands: the handle is opened before
-- the transfer is registered and closed only by the handlers that take it out.
pub record Incoming : Type 0 where
  pub transfer_id : String
  pub addr_key : String
  pub filename : String
  pub size : ℕ
  pub expected_checksum : String
  pub sender_name : String
  pub dest_path : String
  pub part_path : String
  pub peer_device_id : String
  pub bytes_received : ℕ
  pub expected_chunk_index : ℕ
  pub resume_offset : ℕ
  pub last_committed : ℕ
  pub first_chunk_received : Bool
  pub state : IncomingState
  pub position : ℕ

-- `OutgoingTransfer`, with its acknowledgement event.
pub record Outgoing : Type 0 where
  pub transfer_id : String
  pub addr_key : String
  pub filepath : String
  pub filename : String
  pub size : ℕ
  pub checksum : String
  pub peer_device_id : String
  pub resume_offset : ℕ
  pub state : OutgoingState
  pub ack_event : Bool
  pub ack_success : Bool

-- Why a transfer failed: the texts that `error=` and the acknowledgement carry.
pub data Reason : Type 0 where
  os_error out_of_order_chunk declared_size_exceeded disk_full checksum_mismatch : Reason
  connection_lost rejected send_failed peer_aborted ack_failed_or_timeout : Reason
  peer_error : ErrorCode → Reason

-- The arguments of `_notify_complete`.
pub data Completion : Type 0 where
  received : Incoming → Bool → Option String → Option Reason → Completion
  uploaded : Outgoing → Bool → Option String → Option Reason → Completion

-- What the session hands to `manager.send`, `send_binary` and `send_error`, with the address.
pub data Sent : Type 0 where
  file_complete_ack : String → String → Bool → Option Reason → Sent
  error : String → ErrorCode → String → Sent
  file_accept : String → String → ℕ → Sent
  file_reject : String → String → Sent

pub record Report : Type 0 where
  pub addr_key : String
  pub code : ErrorCode
  pub transfer_id : String

pub record Session : Type 0 where
  pub incoming : Dict Incoming
  pub outgoing : Dict Outgoing
  pub offer_resume_offsets : Dict ℕ
  pub disk : Disk
  pub reported_errors : List Report
  pub sent : List Sent
  pub progress : List (String × ℕ × ℕ)
  pub completions : List Completion
  -- The transfers whose `_send_chunks` task was started.
  pub sending_tasks : List String

abbrev pub error_report_cap : ℕ
error_report_cap = 256

pub ErrorCode-discrete : Discrete ErrorCode
ErrorCode-discrete = hlevel

abbrev same_code : ErrorCode → ErrorCode → Bool
same_code a b = elim (ErrorCode-discrete a b) [ yes _ ↦ true | no _ ↦ false ]

abbrev pub same_report : Report → Report → Bool
same_report a b =
    str_eq a.addr_key b.addr_key && same_code a.code b.code && str_eq a.transfer_id b.transfer_id

-- `popitem(last=False)` until at most `error_report_cap` entries are left.
abbrev pub evict : List Report → List Report
evict reports = drop (length reports - error_report_cap) reports

-- `_report_once`
unfoldable pub report_once : Session → String → ErrorCode → String → Session
report_once session addr_key code transfer_id =
    let key : Report = record { addr_key = addr_key; code = code; transfer_id = transfer_id } in
    if str_eq transfer_id "" || ltb 128 (count transfer_id)
    then session
    else if any (same_report key) session.reported_errors
    then session
    else record session {
      reported_errors = evict (session.reported_errors ++ key ∷ []);
      sent = session.sent ++ error addr_key code transfer_id ∷ [];
    }

abbrev pub send : Session → Sent → Session
send session message = record session { sent = session.sent ++ message ∷ [] }

abbrev pub notify_complete : Session → Completion → Session
notify_complete session completion = record session {
  completions = session.completions ++ completion ∷ [];
}

abbrev pub notify_progress : Session → String → ℕ → ℕ → Session
notify_progress session transfer_id bytes total = record session {
  progress = session.progress ++ (transfer_id, bytes, total) ∷ [];
}

-- `_incoming.pop(id, None)` and `_offer_resume_offsets.pop(id, None)`
abbrev pub forget_incoming : String → Session → Session
forget_incoming transfer_id session = record session {
  incoming = remove transfer_id session.incoming;
  offer_resume_offsets = remove transfer_id session.offer_resume_offsets;
}

-- A changed transfer object stands where it stood.
abbrev pub put_incoming : String → Incoming → Session → Session
put_incoming transfer_id transfer session = record session {
  incoming = insert transfer_id transfer session.incoming;
}
