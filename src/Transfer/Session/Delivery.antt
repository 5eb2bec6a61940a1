-- ===== src/Transfer/Session/Delivery.antt =====
-- `_handle_chunk` of core/transfer/session.py on the chunks of a file, in order.
pub mod Arrival
use peerc.Common.{
  ◌≡◌, ◌≢◌, refl, sym, ap, ◌∙◌, ◌⊎◌, inl, inr, ℕ, ◌+◌, ◌/◌, ◌≤◌, ◌<◌, List, [], ◌∷◌, ◌++◌, Bool,
  true, false, ◌==◌, ◌&&◌, ◌||◌, not, ltb, Option, none, some, length, length-append, length-take,
  take, drop, take-append-drop, String, str_eq, eq_iff, arith, Option-cases, Bool-cases, Result, ok,
  err,
}
use mathlib.Core.List.{append_assoc, append-nil}
use peerc.Common.Dicts.{lookup, insert, remove, lookup-insert, lookup-remove}
use peerc.Protocol.Bytes.{Bytes}
use peerc.Protocol.Binary.{FileData}
use peerc.TransferState.{
  IncomingState, IncomingState-discrete, incoming_transitions, accepted, receiving,
  incoming_transition_to, verifying,
}
use peerc.Transfer.Chunker.{
  default_chunk_size, Chunk, read_chunks, joined, Consecutive, read_chunks-covers,
}
use peerc.Transfer.Disk.{Disk, Io, discard}
use peerc.Transfer.Session.{Incoming, Session, file_complete_ack, notify_progress, put_incoming}
use peerc.Transfer.Session.Receiving.{align, accept_chunk, store, handle_chunk}
use peerc.Transfer.Session.Receiving.Cases.{
  Holds, SameOffer, OnlyPart, counted, seen, store-appends,
}
use peerc.Transfer.Session.Receiving.Chunks.{entered}
use peerc.Transfer.Session.Finishing.{Done, start_verifying, is_intact, handle_done}
use peerc.Transfer.Session.Finishing.Verified.{answered, intact-when, done-intact, discard-was}
use peerc.Transfer.Disk.Frame.{remove_file-elsewhere, discard-files, finalize_part_file-moves}

-- The message of one chunk.
abbrev pub message_of : String → Chunk → FileData String
message_of id c = record {
  transfer_id = id;
  sequence = c.sequence_index;
  offset = c.byte_offset;
  body = c.chunk_bytes;
}

-- A transfer that chunks may be sent for.
abbrev pub Open : Incoming → Type 0
Open t = (t.state ≡ accepted) ⊎ (t.state ≡ receiving)

Open-receives : (t : Incoming) → Open t → incoming_transition_to t.state receiving ≡ ok receiving
unfolding incoming_transition_to incoming_transitions
Open-receives t is_open = ground arith

module _ (getter : String → Option String) where
  -- The session after each chunk of a list.
  unfoldable pub receive_all : Io → Session → String → String → List Chunk → Session
  receive_all io session addr_key id [] = session
  receive_all io session addr_key id (c ∷ cs) =
      receive_all io (handle_chunk getter io session addr_key (message_of id c)) addr_key id cs

  align-next :
      (io : Io) (disk : Disk) (t : Incoming) (message : FileData String)
      → message.sequence ≡ t.expected_chunk_index
      → message.offset ≡ t.bytes_received
      → align getter io disk t message ≡ ok (disk, seen t)
  unfolding align
  align-next io disk t message next at = ground arith

  accept-next :
      (io : Io) (disk : Disk) (t : Incoming) (message : FileData String)
      → message.sequence ≡ t.expected_chunk_index
      → message.offset ≡ t.bytes_received
      → t.bytes_received + length message.body ≤ t.size
      → io.writes ≡ true
      → accept_chunk getter io disk t message ≡ ok (store getter io disk t message.body)
  unfolding accept_chunk
  accept-next io disk t message next at fits works = ground arith

  -- The next chunk is stored, and the transfer waits for the one after it.
  handle_chunk-next :
      (io : Io) (session : Session) (addr_key : String) (message : FileData String) (t : Incoming)
      (content : Bytes)
      → lookup message.transfer_id session.incoming ≡ some t
      → Holds session.disk t content
      → Open t
      → message.sequence ≡ t.expected_chunk_index
      → message.offset ≡ t.bytes_received
      → t.bytes_received + length message.body ≤ t.size
      → io.writes ≡ true
      → (disk : Disk) × (c : ℕ) × (let u = record (counted (seen (entered t)) message.body) {
        last_committed = c;
      } in
          (handle_chunk getter io session addr_key message
            ≡ notify_progress
                (put_incoming message.transfer_id u (record session { disk = disk }))
                u.transfer_id
                u.bytes_received
                u.size)
          × Holds disk u (content ++ message.body)
          × OnlyPart t session.disk disk)
  unfolding handle_chunk
  handle_chunk-next io session addr_key message t content found held is_open next at fits works =
      let (disk, c, result, now, only) =
        store-appends getter io session.disk (seen (entered t)) message.body content held fits in
      let ready = Open-receives t is_open in
      let aligned = align-next io session.disk (entered t) message next at in
      let taken = accept-next io session.disk (seen (entered t)) message next at fits works in
      (disk, c, (ground arith, now, only))

  -- The next chunk of an open transfer is kept: it stands behind the others, and the transfer waits
  -- for the chunk after it.
  handle_chunk-advances :
      (io : Io) (session : Session) (addr_key : String) (message : FileData String) (t : Incoming)
      (content : Bytes)
      → lookup message.transfer_id session.incoming ≡ some t
      → Holds session.disk t content
      → Open t
      → message.sequence ≡ t.expected_chunk_index
      → message.offset ≡ t.bytes_received
      → t.bytes_received + length message.body ≤ t.size
      → io.writes ≡ true
      → let after = handle_chunk getter io session addr_key message in
        (u : Incoming) × (lookup message.transfer_id after.incoming ≡ some u)
        × Holds after.disk u (content ++ message.body)
        × (u.state ≡ receiving)
        × SameOffer t u
        × OnlyPart t session.disk after.disk
        × (u.expected_chunk_index ≡ t.expected_chunk_index + 1)
        × (u.bytes_received ≡ t.bytes_received + length message.body)
  handle_chunk-advances io session addr_key message t content found held is_open next at fits
        works =
      let (disk, c, (result, now, only)) =
        handle_chunk-next io session addr_key message t content found held is_open next at fits
          works in
      let u = record (counted (seen (entered t)) message.body) { last_committed = c } in
      let key = message.transfer_id in
      rw (result) (
        u,
        ground (arith, lookup-insert key key u session.incoming, eq_iff key key),
        now,
        refl,
        ground arith,
        only,
        refl,
        refl,
      )

  -- All of the chunks are stored, one behind the other.
  pub receive_all-Holds :
      (io : Io) (addr_key id : String) (chunks : List Chunk) (session : Session) (t : Incoming)
      (content : Bytes)
      → lookup id session.incoming ≡ some t
      → Holds session.disk t content
      → Open t
      → Consecutive t.expected_chunk_index t.bytes_received chunks
      → length (content ++ joined chunks) ≤ t.size
      → io.writes ≡ true
      → let after = receive_all io session addr_key id chunks in
        (u : Incoming) × (lookup id after.incoming ≡ some u)
        × Holds after.disk u (content ++ joined chunks)
        × Open u
        × SameOffer t u
        × OnlyPart t session.disk after.disk
  unfolding receive_all joined Consecutive
  receive_all-Holds io addr_key id [] session t content found held is_open run fits works =
      (t, found, rw (append-nil content) held, is_open, ground arith, λ r off. refl)
  receive_all-Holds io addr_key id (c ∷ cs) session t content found held is_open
        (next, at, some_bytes, run) fits works =
      let (there, long, at_end, small, marked) = held in
      let total : length content + (length c.chunk_bytes + length (joined cs)) ≤ t.size = omega (
        arith,
        length-append content (c.chunk_bytes ++ joined cs),
        length-append c.chunk_bytes (joined cs),
      ) in
      let (u, found_u, held_u, state, same, only, index, count) =
        handle_chunk-advances io session addr_key (message_of id c) t content found held is_open
          next at (omega arith) works in
      let whole = append_assoc content c.chunk_bytes (joined cs) in
      let run_u : Consecutive u.expected_chunk_index u.bytes_received cs = rw (index, count) run in
      let fits_u : length (content ++ c.chunk_bytes ++ joined cs) ≤ u.size =
        rw (whole, same.2) fits in
      let (v, kept, holds, still, same_v, others) =
        receive_all-Holds io addr_key id cs
          (handle_chunk getter io session addr_key (message_of id c)) u (content ++ c.chunk_bytes)
          found_u held_u (inr state) run_u fits_u works in
      (
        v,
        kept,
        rw whole at holds,
        still,
        ground arith,
        λ r off. others r (λ e. off (e ∙ same.3)) ∙ only r off,
      )
