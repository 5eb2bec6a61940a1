-- ===== src/Transport/Tcp.antt =====
-- core/transport/tcp.py: TCPConnection over the two streams of a socket. The writer is the list of
-- the bytes that were handed to it; what the peer has sent is an argument of a read.
use peerc.Common.{Bool, true, ◌++◌, if◌then◌else◌, Result, ok, err}
use peerc.Protocol.Bytes.{Bytes}
use peerc.Protocol.Frame.{
  FrameError, incomplete_read, Json, Frame, encode_binary_frame, read_any_frame,
}
use peerc.Crypto.Channel.{EncryptionError}

-- ConnectionClosedError, TransportError by its message, the errors of the channel, which are passed
-- on, and the error that `struct.pack` raises for a number that does not fit.
pub data TransportError : Type 0 where
  connection_closed : TransportError
  frame_error : FrameError → TransportError
  sequence_exhausted encryption_failed struct_error : TransportError
  plain_json_frame too_short empty_payload malformed_json : TransportError
  channel_error : EncryptionError → TransportError

-- `closed` is `is_closing`.
pub record TcpConnection : Type 0 where
  pub closed : Bool
  pub writer : Bytes

-- What `drain` does.
pub data Drain : Type 0 where
  drained connection_lost : Drain

unfoldable pub drain_after :
    TcpConnection → Drain → TcpConnection × Result TransportError (Unit {0})
drain_after tcp drained = (tcp, ok tt)
drain_after tcp connection_lost = (record tcp { closed = true }, err connection_closed)

unfoldable pub write_binary_frame :
    TcpConnection → Drain → Bytes → TcpConnection × Result TransportError (Unit {0})
write_binary_frame tcp drain payload =
    if tcp.closed then (tcp, err connection_closed) else elim (encode_binary_frame payload) [
      | err e ↦ (tcp, err (frame_error e))
      | ok bytes ↦ drain_after (record tcp { writer = tcp.writer ++ bytes }) drain
    ]

module _ {Message : Type 0} (codec : Json Message) where
  -- What is left of the stream stands beside the frame.
  unfoldable pub read_frame :
      TcpConnection → Bytes → TcpConnection × Result TransportError (Frame Message × Bytes)
  read_frame tcp reader =
      if tcp.closed then (tcp, err connection_closed) else elim (read_any_frame codec reader) [
        | err incomplete_read ↦ (record tcp { closed = true }, err connection_closed)
        | err e ↦ (tcp, err (frame_error e))
        | ok r ↦ (tcp, ok r)
      ]

unfoldable pub close : TcpConnection → TcpConnection
close tcp = record tcp { closed = true }
