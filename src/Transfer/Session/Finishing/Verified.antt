-- ===== src/Transfer/Session/Finishing/Verified.antt =====
-- `_handle_done` branch by branch, and what reaches the destination path.
use peerc.Common.{
  if◌then◌else◌, ◌≡◌, refl, sym, ap, ◌∙◌, ◌⊎◌, inl, inr, Bool, true, false, none, some, String,
  eq_iff, arith, ok, err,
}
use peerc.Common.Dicts.{lookup, insert, remove}
use peerc.Protocol.Bytes.{Bytes}
use peerc.Protocol.Errors.{invalid_state, transfer_not_found}
use peerc.TransferState.{
  IncomingState, accepted, receiving, verifying, completed, failed, InvalidTransferTransition,
  incoming_transitions, incoming_transition_to,
}
use peerc.Transfer.Disk.{Disk, Io, discard, finalize_part_file}
use peerc.Transfer.Disk.Frame.{remove_file-was, discard-files}
use peerc.Transfer.Session.{
  Incoming, Session, checksum_mismatch, received, file_complete_ack, report_once, send,
  notify_complete, forget_incoming,
}
use peerc.Transfer.Session.Finishing.{file_not_found, start_verifying, is_intact, handle_done}

pub verifying-only :
    (s : IncomingState)
    → ((e : InvalidTransferTransition IncomingState) × (start_verifying s ≡ err e))
      ⊎ (start_verifying s ≡ ok verifying)
unfolding start_verifying incoming_transition_to incoming_transitions
verifying-only accepted = inr refl
verifying-only receiving = inr refl
verifying-only _ = inl (_, refl)

pub discard-was :
    (io : Io) (path r : String) (disk : Disk) (c : Bytes)
    → lookup r (discard io path disk).files ≡ some c
    → lookup r disk.files ≡ some c
discard-was io path r disk c h =
    remove_file-was io path r disk c (sym (ap (lookup r) (discard-files io path disk)) ∙ h)

pub finalize-found :
    (part dest : String) (disk : Disk) (content : Bytes)
    → lookup part disk.files ≡ some content
    → (moved : Disk) × (finalize_part_file part dest disk ≡ some moved)
unfolding finalize_part_file
finalize-found part dest disk content h =
    (record disk { files = remove part (insert dest content disk.files) }, ground arith)

module _ (sha256 : Bytes → String) where
  pub done-missing :
      (io : Io) (session : Session) (addr_key id : String)
      → lookup id session.incoming ≡ none
      → handle_done sha256 io session addr_key id
        ≡ (report_once session addr_key transfer_not_found id, ok tt)
  unfolding handle_done
  done-missing io session addr_key id h = ground arith

  module _ (io : Io) (session : Session) (addr_key id : String) (t : Incoming)
      (found : lookup id session.incoming ≡ some t) where
    pub done-refused :
        (e : InvalidTransferTransition IncomingState)
        → start_verifying t.state ≡ err e
        → handle_done sha256 io session addr_key id
          ≡ (report_once session addr_key invalid_state id, ok tt)
    unfolding handle_done
    done-refused e h = ground arith

    pub done-no_part :
        start_verifying t.state ≡ ok verifying
        → lookup t.part_path session.disk.files ≡ none
        → handle_done sha256 io session addr_key id
          ≡ (forget_incoming t.transfer_id session, err file_not_found)
    unfolding handle_done
    done-no_part go h = ground arith

    -- What the session is after the verdict, apart from the files.
    abbrev pub answered : Bool → Session
    answered success =
        let gone = forget_incoming t.transfer_id session in
        if success
        then notify_complete (send gone (file_complete_ack t.addr_key t.transfer_id true none))
            (received (record t { state = completed }) true (some t.dest_path) none)
        else notify_complete
            (send gone (file_complete_ack t.addr_key t.transfer_id false (some checksum_mismatch)))
            (received (record t { state = failed }) false none (some checksum_mismatch))

    pub done-damaged :
        (content : Bytes)
        → start_verifying t.state ≡ ok verifying
        → lookup t.part_path session.disk.files ≡ some content
        → is_intact sha256 t content ≡ false
        → handle_done sha256 io session addr_key id
          ≡ (record (answered false) { disk = discard io t.part_path session.disk }, ok tt)
    unfolding handle_done is_intact
    done-damaged content go h broken = ground arith

    pub done-intact :
        (content : Bytes) (moved : Disk)
        → start_verifying t.state ≡ ok verifying
        → lookup t.part_path session.disk.files ≡ some content
        → is_intact sha256 t content ≡ true
        → finalize_part_file t.part_path t.dest_path session.disk ≡ some moved
        → handle_done sha256 io session addr_key id
          ≡ (record (answered true) { disk = discard io t.part_path moved }, ok tt)
    unfolding handle_done is_intact
    done-intact content moved go h whole moves = ground arith

  pub intact-when :
      (t : Incoming) (content : Bytes)
      → t.expected_checksum ≡ sha256 content
      → t.bytes_received ≡ t.size
      → is_intact sha256 t content ≡ true
  unfolding is_intact
  intact-when t content digest count = ground (arith, eq_iff (sha256 content) t.expected_checksum)

  -- The file at a path is the open transfer's, with the digest and the length that were offered.
  abbrev pub FromOffer : Session → String → String → Bytes → Type 0
  FromOffer session id r content =
      (t : Incoming) × (lookup id session.incoming ≡ some t)
      × (r ≡ t.dest_path)
      × (lookup t.part_path session.disk.files ≡ some content)
      × (sha256 content ≡ t.expected_checksum)
      × (t.bytes_received ≡ t.size)
