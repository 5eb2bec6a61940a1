-- ===== src/Transfer/Session/Invariant/Handlers.antt =====
-- The handlers of arriving chunks and of `file_done` keep the session well formed.
use peerc.Common.{◌≡◌, ◌∙◌, inl, inr, [], ◌++◌, Option, none, some, String, arith, Option-cases}
use peerc.Common.Dicts.{lookup}
use peerc.Protocol.Bytes.{Bytes}
use peerc.Protocol.Binary.{FileData}
use peerc.Protocol.Errors.{ErrorCode, invalid_state, transfer_not_found}
use peerc.Transfer.Disk.{Disk, Io}
use peerc.Transfer.Session.{Incoming, Session, Reason, report_once}
use peerc.Transfer.Session.Reports.{report_once-keeps}
use peerc.Transfer.Session.Receiving.{abort_files, abort_incoming, handle_chunk}
use peerc.Transfer.Session.Receiving.Cases.{OnlyPart, SameOffer}
use peerc.Transfer.Session.Receiving.Strays.{abort_files-Untouched}
use peerc.Transfer.Session.Receiving.Chunks.{Stored, handle_chunk-cases}
use peerc.Transfer.Session.Invariant.{WellFormed, remove-Sound, update-Sound}

pub report_once-WellFormed :
    (session : Session) (addr_key : String) (code : ErrorCode) (transfer_id : String)
    → WellFormed session
    → WellFormed (report_once session addr_key code transfer_id)
report_once-WellFormed session addr_key code transfer_id sound =
    let (incoming, disk) = report_once-keeps session addr_key code transfer_id in
    rw (incoming, disk) sound

abort_incoming-WellFormed :
    (io : Io) (session : Session) (disk : Disk) (k : String) (t u : Incoming) (reason : Reason)
    → WellFormed session
    → lookup k session.incoming ≡ some t
    → SameOffer t u
    → OnlyPart t session.disk disk
    → WellFormed (abort_incoming io (record session { disk = disk }) u reason)
unfolding abort_incoming abort_files
abort_incoming-WellFormed io session disk k t u reason sound found same only =
    let (own, old, apart) = sound k t found in
    let key : u.transfer_id ≡ k = same.0 ∙ own in
    rw (key) (
      remove-Sound session.incoming session.disk (abort_files io u disk) k t sound found
        (λ r off_part off_dest.
          abort_files-Untouched io u disk r (λ e. off_part (e ∙ same.3))
            (λ e. off_dest (e ∙ same.4))
          ∙ only r off_part))

module _ (getter : String → Option String) where
  missing-chunk :
      (io : Io) (session : Session) (addr_key : String) (message : FileData String)
      → lookup message.transfer_id session.incoming ≡ none
      → handle_chunk getter io session addr_key message
        ≡ report_once session addr_key transfer_not_found message.transfer_id
  unfolding handle_chunk
  missing-chunk io session addr_key message h = ground arith

  Stored-WellFormed :
      (io : Io) (session : Session) (addr_key : String) (message : FileData String) (t : Incoming)
      (content : Bytes)
      → WellFormed session
      → lookup message.transfer_id session.incoming ≡ some t
      → Stored getter io session addr_key message t content
      → WellFormed (handle_chunk getter io session addr_key message)
  Stored-WellFormed io session addr_key message t content sound found
        (disk, u, result, same, state, only, held, at) =
      rw (result) (
        update-Sound session.incoming session.disk disk message.transfer_id t u
          (content ++ message.body) sound found same only held)

  -- Whatever chunk arrives, from whatever peer, and whichever calls into the operating system fail,
  -- a well formed session stays well formed: every open transfer is registered under its own id, its
  -- part file has exactly the bytes that are counted, which are at most the offered size and at
  -- least the committed ones, and no other transfer uses that file.
  pub handle_chunk-WellFormed :
      (io : Io) (session : Session) (addr_key : String) (message : FileData String)
      → WellFormed session
      → WellFormed (handle_chunk getter io session addr_key message)
  handle_chunk-WellFormed io session addr_key message sound =
      let key = message.transfer_id in
      elim (Option-cases (lookup key session.incoming)) [
        | inl missing ↦
            rw (missing-chunk io session addr_key message missing)
              (report_once-WellFormed session addr_key transfer_not_found key sound)
        | inr (t, found) ↦
            let (own, (content, held), apart) = sound key t found in
            elim (handle_chunk-cases getter io session addr_key message t content found held) [
              | inl refused ↦
                  rw (refused) (report_once-WellFormed session addr_key invalid_state key sound)
              | inr (inl (disk, u, reason, result, same, state, only)) ↦
                  rw (result)
                    (abort_incoming-WellFormed io session disk key t u reason sound found same only)
              | inr (inr (inl stored)) ↦
                  Stored-WellFormed io session addr_key message t content sound found stored
              | inr (inr (inr stored)) ↦
                  Stored-WellFormed io session addr_key message t [] sound found stored
            ]
      ]
