-- ===== src/Lib.antt =====
-- Verification of peerc, a peer-to-peer chat and file transfer program: two devices connect,
-- authenticate in a handshake, derive session keys, and exchange chat messages and files in
-- encrypted frames.
--
-- The development follows the repository's core/ package. Each file opens with the source that
-- it is about, and keeps the names of its functions.
-- - Common, Common/*: lists, options, results and Boolean tests that all files use;
--   Common/Dicts is Python's dict with text keys, as the list of its entries in order of
--   insertion.
-- - Fsm: a guarded state machine driven by a list of requests, for the two machines below.
-- - Connection: core/connection_state.py, ConnectionStateMachine. A transition is a function
--   from the state and the request to the new state or the error; Connection/Reach is about
--   every list of requests.
-- - TransferState: core/transfer_state.py, the machines of an outgoing and an incoming transfer
--   over one shared implementation, as in the source.
-- - Protocol: core/protocol/frame.py (length-prefixed frames, JSON or binary) and
--   core/protocol/binary.py (the payload of a file chunk). A byte is a number below 256 and a
--   stream the list of the bytes still to come; json and uuid are parameters with the laws that
--   the code relies on (Protocol.Frame.Json, Protocol.Binary.Uuids). Protocol/Values is what
--   json.loads returns, where a float is a number of thousandths, and Protocol/Hex is bytes.hex
--   and bytes.fromhex.
-- - Protocol/ErrorMessages: core/protocol/error_codes.py, the filter of a context, build_error
--   and parse_error_message; the canonical texts and the regular expressions that screen a text
--   are parameters. Protocol/Schema and Protocol/Messages: core/protocol/messages.py; Schema is
--   the required fields with the tests that recur, Messages itself validate_message,
--   Messages/Make the make_ functions, and Messages/Sent one type of all the calls of them but
--   make_error.
-- - Crypto: core/crypto/kdf.py, core/crypto/encryption.py (SecureChannel, its sequence numbers
--   and nonces) and the NonceCache of core/crypto/handshake.py. HKDF and the AEAD cipher are
--   parameters (Crypto.Kdf.Hkdf, Crypto.Channel.Aead).
-- - Crypto/Handshake: the rest of core/crypto/handshake.py. Transcript is the bytes that are
--   signed, Trusting the calls of the trust store, Sides the two coroutines, each cut where it
--   waits for a frame: a step takes what arrived (a frame, a timeout or a failed read) and
--   returns the state after it, what it sends, the events it emits and its result. The clock,
--   the nonce and the ephemeral key of a side are arguments; Ed25519, X25519, SHA-256 and
--   json.dumps are the fields of Primitives. The events that TrustStore.check emits inside
--   _check_trust are left out of the events of a step, since Trust has them.
-- - Transport: core/transport/tcp.py and core/transport/secure.py. Tcp is the reading and
--   writing of frames, where a socket is the bytes that were handed to it and what a drain does
--   is an argument; Secure the encrypted transport over it. What is left of a stream after a
--   read that raises is not modelled, since the session ends then.
-- - Group: core/group/policy.py, the checks of PolicyEnforcer over the tables of the group
--   store that they read; each returns the events that it emits beside its outcome. str.lower,
--   which goes by the tables of Unicode, is an argument of the matching of rules. Policy/Rules,
--   Policy/Matrix and Policy/Groups say in the words of the policies which rules match, what a
--   matrix decides, and which groups and policies count.
-- - Trust: core/trust/store.py and core/trust/revocation.py, the table of known devices and its
--   operations; the group policy check that record_first_seen calls is the one of Group, and
--   the verification of a rotation certificate is a parameter. Trust/Rotation is
--   get_rotation_chain and check_with_rotation; the set of visited devices is a list without
--   repetitions, and rows come in the order in which they were stored.
-- - Vault: core/vault/session.py with what it uses of core/vault/keyfile.py and
--   core/vault/crypto.py (Keyfile). Session is the lock, the idle timer and the settings,
--   Export the second secret of the export action. Times are thousandths of a second, the
--   clock, salts and nonces are arguments, and the database is its table of settings; an action
--   has gone through lower and strip.
-- - Connectivity: core/connectivity/relay.py, the authorization of relay requests over the
--   memberships of Group.
-- - Transfer: core/transfer/. Chunker is read_chunks; Disk the files under the downloads
--   directory and the sidecars of partial.py, by path; Partial the choice among the partials
--   that a scan finds; Session the state of a FileTransferSession; Session/Receiving is
--   _handle_chunk with its checks, restart, write, checkpoint and abort; Session/Finishing is
--   _handle_done; Session/Upload the sender's handlers of replies; Session/Failing the handlers
--   of error messages and of a lost connection. Session/Invariant is about well-formed
--   sessions, Session/Delivery about a file on its way from the sender's disk to the
--   destination.
--
-- How the parts interact: a handshake checks each frame with validate_message of
-- Protocol.Messages, keeps its nonces in the cache of Crypto.Nonces and asks and writes the
-- trust store of Trust; its secret and transcript hash go to Crypto.Kdf. Transport puts a
-- marker before each payload, seals it with Crypto.Channel and sends it in a frame of
-- Protocol.Frame. A transfer's chunks are framed by Protocol.Binary, sent so, and handed to
-- Transfer.Session, whose transfers move through TransferState. The handlers take the whole
-- session and return the session after the call; what they send, report or raise is kept in it
-- or stands beside it as a value. Calls into the operating system may fail: the record
-- Transfer.Disk.Io says which do in a call. The content of a file is what its handle has
-- written, so a flush changes nothing in the model but may fail.
--
-- Bounds and fuel: read_chunks recurses on fuel, one more than the file has bytes; each round
-- but the last takes a byte at least, so this is enough. The walk of get_rotation_chain
-- recurses on fuel, one more than twice the stored rotations: a visited device adds its
-- rotations to the queue once, and each rotation stands in it twice at most. Integers are those
-- of the source: the length prefix has 32 bits and the sequence number of a channel 96 bits,
-- with the tests that the code makes; Python's integers have no bound.
--
-- Not modelled here: _handle_offer and offer_file with the choice of a destination and of a
-- partial download to resume, and the task _send_chunks with its waits (a transfer enters the
-- model when it is registered); the validation of a sidecar in partial.py, which Io.stores_meta
-- stands for; check_export of the group policies, the records of groups and their store; the
-- sessions of chat messages, discovery, rendezvous and links, the manager of connections, and
-- the storage of the vault; logging, progress of the user interface, and threads. An asyncio
-- handler runs between two awaits without interruption, and the model takes a whole handler as
-- one step: no handler modelled here reads the session again after an await that can let
-- another handler change what it has read, except that a message is sent before the last files
-- are moved in _handle_done, when the transfer is already out of the registry.
pub mod Common
pub mod Fsm
pub mod Connection
pub mod TransferState
pub mod Protocol
pub mod Crypto
pub mod Transfer
pub mod Group
pub mod Trust
pub mod Connectivity
pub mod Transport
pub mod Vault
