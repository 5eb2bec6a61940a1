-- ===== src/Transfer/Session/Failing.antt =====
-- core/transfer/session.py: what fails a transfer from outside, `_fail_incoming`, `_handle_error` and
-- `handle_connection_lost`.
pub mod Peers
pub mod Lost
use peerc.Common.{
  List, [], ◌∷◌, Bool, true, false, Option, none, some, String, str_eq, if◌then◌else◌, Result, ok,
  err,
}
use peerc.Common.Dicts.{Dict, lookup}
use peerc.Protocol.Errors.{ErrorInfo, is_terminal_code}
use peerc.TransferState.{IncomingState, failed, InvalidTransferTransition, incoming_transition_to}
use peerc.Transfer.Disk.{Disk, Io, whole_chunks, write_meta}
use peerc.Transfer.Session.{
  Incoming, Outgoing, Session, Reason, connection_lost, peer_error, received, notify_complete,
  forget_incoming,
}
use peerc.Transfer.Session.Receiving.{sidecar_of, given, device_of}
use peerc.Transfer.Session.Upload.{fail_outgoing}

-- The sidecar written when a transfer is given up but its part file kept. Whether the flush and
-- `fsync` before it succeeded is not looked at.
keep_for : Io → Incoming → Disk → Option String → Disk
keep_for io transfer disk none = disk
keep_for io transfer disk (some device) =
    if str_eq transfer.part_path "" then disk else elim (lookup transfer.part_path disk.files) [
      | none ↦ disk
      | some content ↦
          write_meta io transfer.part_path
            (sidecar_of transfer device (whole_chunks transfer.bytes_received)) disk
    ]

unfoldable pub keep_partial : Io → Incoming → Option String → Disk → Disk
unfolding keep_for
keep_partial io transfer device disk = keep_for io transfer disk device

-- The first of two device ids that is there.
abbrev pub or_else : Option String → Option String → Option String
or_else none other = other
or_else (some device) other = some device

-- The entries of a registry that belong to an address.
unfoldable pub with_address : String → Dict Incoming → List Incoming
with_address addr_key [] = []
with_address addr_key ((k, t) ∷ d) =
    let rest = with_address addr_key d in if str_eq t.addr_key addr_key then t ∷ rest else rest

unfoldable pub uploads_with_address : String → Dict Outgoing → List Outgoing
uploads_with_address addr_key [] = []
uploads_with_address addr_key ((k, t) ∷ d) =
    let rest = uploads_with_address addr_key d in
    if str_eq t.addr_key addr_key then t ∷ rest else rest

-- A transfer of the registry, if it is with this peer.
abbrev pub incoming_of : String → Option Incoming → Option Incoming
incoming_of addr_key none = none
incoming_of addr_key (some t) = if str_eq t.addr_key addr_key then some t else none

abbrev pub outgoing_of : String → Option Outgoing → Option Outgoing
outgoing_of addr_key none = none
outgoing_of addr_key (some t) = if str_eq t.addr_key addr_key then some t else none

settle_failed : Incoming → Result (InvalidTransferTransition IncomingState) IncomingState → Incoming
settle_failed t (ok state) = record t { state = state }
settle_failed t (err e) = t

-- The second loop of `handle_connection_lost`.
unfoldable pub fail_all : Session → List Outgoing → Session
fail_all session [] = session
fail_all session (t ∷ ts) = fail_all (fail_outgoing session t connection_lost).0 ts

module _ (getter : String → Option String) where
  fail_moved :
      Io
      → Session
      → Incoming
      → Reason
      → Result (InvalidTransferTransition IncomingState) IncomingState
      → Session × Bool
  fail_moved io session transfer reason (err e) = (session, false)
  fail_moved io session transfer reason (ok state) =
      let gone = forget_incoming transfer.transfer_id session in
      (
        notify_complete
            (record gone { disk = keep_partial io transfer (device_of getter transfer) gone.disk })
            (received (record transfer { state = state }) false none (some reason)),
        true,
      )

  -- `_fail_incoming`
  unfoldable pub fail_incoming : Io → Session → Incoming → Reason → Session × Bool
  unfolding fail_moved
  fail_incoming io session transfer reason =
      fail_moved io session transfer reason (incoming_transition_to transfer.state failed)

  apply_error : Io → Session → Reason → Option Outgoing → Option Incoming → Session
  apply_error io session reason (some upload) incoming = (fail_outgoing session upload reason).0
  apply_error io session reason none (some transfer) = (fail_incoming io session transfer reason).0
  apply_error io session reason none none = session

  error_about : Io → Session → String → ErrorInfo → Option String → Session
  unfolding apply_error
  error_about io session addr_key info none = session
  error_about io session addr_key info (some id) =
      if is_terminal_code info.code
      then apply_error io session (peer_error info.code)
          (outgoing_of addr_key (lookup id session.outgoing))
          (incoming_of addr_key (lookup id session.incoming))
      else session

  -- `_handle_error` on a parsed error.
  unfoldable pub handle_error : Io → Session → String → ErrorInfo → Session
  unfolding error_about
  handle_error io session addr_key info = error_about io session addr_key info info.transfer_id

  -- The body of the first loop of `handle_connection_lost`.
  unfoldable pub lose_incoming : Io → Option String → Session → Incoming → Session
  unfolding settle_failed
  lose_incoming io peer_device_id session transfer =
      let gone = forget_incoming transfer.transfer_id session in
      let device =
        if str_eq transfer.peer_device_id ""
        then or_else (given peer_device_id) (given (getter transfer.addr_key))
        else some transfer.peer_device_id in
      notify_complete (record gone { disk = keep_partial io transfer device gone.disk })
        (received (settle_failed transfer (incoming_transition_to transfer.state failed)) false none
          (some connection_lost))

  unfoldable pub lose_all : Io → Option String → Session → List Incoming → Session
  lose_all io peer_device_id session [] = session
  lose_all io peer_device_id session (t ∷ ts) =
      lose_all io peer_device_id (lose_incoming io peer_device_id session t) ts

  -- `handle_connection_lost`
  unfoldable pub handle_connection_lost : Io → Session → String → Option String → Session
  handle_connection_lost io session addr_key peer_device_id =
      let lost = lose_all io peer_device_id session (with_address addr_key session.incoming) in
      fail_all lost (uploads_with_address addr_key lost.outgoing)
