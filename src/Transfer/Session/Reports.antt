-- ===== src/Transfer/Session/Reports.antt =====
-- `_report_once` of core/transfer/session.py: what a report changes, and how often one is sent.
use peerc.Common.{◌≡◌, String, arith}
use peerc.Protocol.Errors.{ErrorCode}
use peerc.Transfer.Session.{Session, report_once}

-- A report to the peer changes neither the transfers nor the files.
pub report_once-keeps :
    (session : Session) (addr_key : String) (code : ErrorCode) (transfer_id : String)
    → ((report_once session addr_key code transfer_id).incoming ≡ session.incoming)
      × ((report_once session addr_key code transfer_id).disk ≡ session.disk)
unfolding report_once
report_once-keeps session addr_key code transfer_id = ground arith

pub report_once-keeps_uploads :
    (session : Session) (addr_key : String) (code : ErrorCode) (transfer_id : String)
    → ((report_once session addr_key code transfer_id).outgoing ≡ session.outgoing)
      × ((report_once session addr_key code transfer_id).completions ≡ session.completions)
unfolding report_once
report_once-keeps_uploads session addr_key code transfer_id = ground arith
