-- ===== src/Transfer/Session/Invariant/Done.antt =====
-- `_handle_done` keeps the session well formed.
use peerc.Protocol.Bytes.{Bytes}
use peerc.Transfer.Disk.{Disk}
use peerc.Transfer.Session.{Session}
