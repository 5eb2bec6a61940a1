-- ===== src/Transfer/Session/Delivery/Arrival.antt =====
-- A file from the sender's disk to its destination: every chunk in order, then `file_done`.
use peerc.Protocol.Bytes.{Bytes}
use peerc.Transfer.Disk.{Disk}
use peerc.Transfer.Session.{Session}
