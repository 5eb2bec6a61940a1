-- ===== src/Transfer/Session/Upload.antt =====
-- core/transfer/session.py: the sender's handlers, `_handle_accept`, `_handle_reject`,
-- `_handle_complete_ack`, `_fail_outgoing`, and the steps of `_send_chunks`.
pub mod Once
use peerc.Common.{
  ℕ, ◌%◌, [], ◌∷◌, ◌++◌, Bool, true, false, ◌&&◌, not, ◌==◌, ltb, Option, none, some, String,
  if◌then◌else◌, Result, ok, err,
}
use peerc.Common.Dicts.{lookup, insert, remove}
use peerc.Protocol.Errors.{transfer_not_found}
use peerc.TransferState.{
  OutgoingState, sending, waiting_for_complete_ack, completed, failed, rejected,
  InvalidTransferTransition, outgoing_transition_to,
}
use peerc.Transfer.Chunker.{default_chunk_size}
use peerc.Transfer.Session.{
  Outgoing, Session, Reason, peer_aborted, ack_failed_or_timeout, uploaded, report_once,
  notify_complete,
}
use peerc.Transfer.Session as Session

abbrev pub Moved : Type 0
Moved = Result (InvalidTransferTransition OutgoingState) OutgoingState

abbrev pub forget_outgoing : String → Session → Session
forget_outgoing transfer_id session = record session {
  outgoing = remove transfer_id session.outgoing;
}

abbrev pub put_outgoing : String → Outgoing → Session → Session
put_outgoing transfer_id transfer session = record session {
  outgoing = insert transfer_id transfer session.outgoing;
}

-- `_is_valid_resume_offset`; the field of the message is `none` when it is no integer, or negative.
unfoldable pub is_valid_resume_offset : Option ℕ → ℕ → Bool
is_valid_resume_offset none file_size = false
is_valid_resume_offset (some offset) file_size =
    not (ltb file_size offset) && offset % default_chunk_size == 0

-- The offset that a sender starts from.
unfoldable pub accepted_offset : Option ℕ → ℕ → ℕ
accepted_offset none size = 0
accepted_offset (some offset) size = if is_valid_resume_offset (some offset) size then offset else 0

fail_moved : Session → Outgoing → Reason → Moved → Session × Bool
fail_moved session transfer reason (err e) = (session, false)
fail_moved session transfer reason (ok state) =
    let resolved = record transfer { state = state; ack_success = false; ack_event = true } in
    (
      notify_complete (forget_outgoing transfer.transfer_id session)
          (uploaded resolved false none (some reason)),
      true,
    )

-- `_fail_outgoing`
unfoldable pub fail_outgoing : Session → Outgoing → Reason → Session × Bool
unfolding fail_moved
fail_outgoing session transfer reason =
    fail_moved session transfer reason (outgoing_transition_to transfer.state failed)

-- The offset is set whether the transition succeeds or not.
accept_moved : Session → String → Outgoing → Moved → Session
accept_moved session key transfer (err e) = put_outgoing key transfer session
accept_moved session key transfer (ok state) =
    let going = put_outgoing key (record transfer { state = state }) session in
    record going { sending_tasks = going.sending_tasks ++ transfer.transfer_id ∷ [] }

accept_found : Session → String → String → Option ℕ → Option Outgoing → Session
unfolding accept_moved
accept_found session addr_key key offset none = report_once session addr_key transfer_not_found key
accept_found session addr_key key offset (some transfer) =
    accept_moved session key
      (record transfer { resume_offset = accepted_offset offset transfer.size })
      (outgoing_transition_to transfer.state sending)

-- `_handle_accept`
unfoldable pub handle_accept : Session → String → String → Option ℕ → Session
unfolding accept_found
handle_accept session addr_key transfer_id offset =
    accept_found session addr_key transfer_id offset (lookup transfer_id session.outgoing)

reject_moved : Session → Outgoing → Moved → Session
reject_moved session transfer (err e) = session
reject_moved session transfer (ok state) = forget_outgoing transfer.transfer_id (
    notify_complete session
      (uploaded (record transfer { state = state }) false none (some Session.rejected)))

reject_found : Session → Option Outgoing → Session
unfolding reject_moved
reject_found session none = session
reject_found session (some transfer) =
    reject_moved session transfer (outgoing_transition_to transfer.state rejected)

-- `_handle_reject`
unfoldable pub handle_reject : Session → String → String → Session
unfolding reject_found
handle_reject session addr_key transfer_id =
    reject_found session (lookup transfer_id session.outgoing)

-- An acknowledgement counts while it is waited for; a refusal also stops a transfer under way.
ack_in_state : Session → String → Bool → Outgoing → OutgoingState → Session
ack_in_state session key success transfer waiting_for_complete_ack =
    put_outgoing key (record transfer { ack_success = success; ack_event = true }) session
ack_in_state session key success transfer sending =
    if success then session else (fail_outgoing session transfer peer_aborted).0
ack_in_state session key success transfer _ = session

ack_found : Session → String → Bool → Option Outgoing → Session
unfolding ack_in_state
ack_found session key success none = session
ack_found session key success (some transfer) =
    ack_in_state session key success transfer transfer.state

-- `_handle_complete_ack`
unfoldable pub handle_complete_ack : Session → String → String → Bool → Session
unfolding ack_found
handle_complete_ack session addr_key transfer_id success =
    ack_found session transfer_id success (lookup transfer_id session.outgoing)
