-- ===== src/Transfer/Examples.antt =====
-- A session that receives a file of three bytes, and one that offers it.
use peerc.Common.{
  ◌*◌, ◌%◌, ℕ, All, ◌≡◌, ◌≢◌, refl, sym, ◌∙◌, ◌⊎◌, inl, inr, ◌≤◌, List, [], ◌∷◌, true, false, ◌==◌,
  Option, none, some, length, String, str_eq, eq_iff, arith, Bool-cases, ok, if◌then◌else◌,
}
use peerc.Common.Dicts.{lookup, insert}
use peerc.Protocol.Bytes.{Bytes}
use peerc.Protocol.Binary.{FileData}
use peerc.Protocol.Errors.{ErrorInfo, internal_error}
use peerc.TransferState.{accepted, receiving, incoming_transitions, incoming_transition_to}
use peerc.TransferState as TransferState
use peerc.Transfer.Chunker.{Chunk, read_chunks, joined, Consecutive, read_chunks-covers}
use peerc.Transfer.Disk.{Io, write_file}
use peerc.Transfer.Disk.Frame.{Untouched}
use peerc.Transfer.Partial.{
  PartialInfo, Offer, is_for, part_is_usable, better, find_from, find_resumable, resume_offset_for,
  is_expired, sweep_expired,
}
use peerc.Transfer.Partial.Best.{Fits, NoLater, find_resumable-latest, resume_offset_trusted}
use peerc.Transfer.Session.{
  Incoming, Outgoing, Session, Completion, out_of_order_chunk, file_complete_ack,
}
use peerc.Transfer.Session.Receiving.{align, accept_chunk, store, checkpoint_incoming, handle_chunk}
use peerc.Transfer.Session.Receiving.Strays.{stray_chunk_aborts}
use peerc.Transfer.Session.Invariant.{WellFormed}
use peerc.Transfer.Session.Invariant.Handlers.{handle_chunk-WellFormed}
use peerc.Transfer.Session.Upload.Once.{
  Reply, accept, reject, complete_ack, after_replies, upload_reported_once,
}

abbrev working : Io
working = record {
  truncates = true;
  writes = true;
  syncs = true;
  stores_meta = true;
  removes = λ path. true;
}

abbrev nobody : String → Option String
nobody addr_key = none

-- A digest that knows one length.
abbrev toy_sha256 : Bytes → String
toy_sha256 content = if length content == 3 then "three" else "other"

abbrev receiving_file : Incoming
receiving_file = record {
  transfer_id = "t1";
  addr_key = "alice";
  filename = "d";
  size = 3;
  expected_checksum = "three";
  sender_name = "Alice";
  dest_path = "downloads/d";
  part_path = "downloads/d.part";
  peer_device_id = "";
  bytes_received = 0;
  expected_chunk_index = 0;
  resume_offset = 0;
  last_committed = 0;
  first_chunk_received = true;
  state = accepted;
  position = 0;
}

abbrev offering : Outgoing
offering = record {
  transfer_id = "u1";
  addr_key = "alice";
  filepath = "docs/f";
  filename = "f";
  size = 3;
  checksum = "three";
  peer_device_id = "";
  resume_offset = 0;
  state = TransferState.OutgoingState.waiting_for_accept;
  ack_event = false;
  ack_success = false;
}

abbrev session_with : Bytes → Incoming → Session
session_with part transfer = record {
  incoming = ("t1", transfer) ∷ [];
  outgoing = ("u1", offering) ∷ [];
  offer_resume_offsets = [];
  disk = record { files = ("downloads/d.part", part) ∷ ("notes", 7 ∷ []) ∷ []; sidecars = [] };
  reported_errors = [];
  sent = [];
  progress = [];
  completions = [];
  sending_tasks = [];
}

abbrev started : Session
started = session_with [] receiving_file

abbrev small_file : Bytes
small_file = 1 ∷ 2 ∷ 3 ∷ []

-- The transfer once all of the file has come.
abbrev filled : Session
filled = session_with small_file (record receiving_file {
  bytes_received = 3;
  expected_chunk_index = 1;
  position = 3;
  state = receiving;
})

abbrev whole_chunk : FileData String
whole_chunk = record { transfer_id = "t1"; sequence = 0; offset = 0; body = small_file }

-- Tests.
read_small :
    read_chunks small_file 1 2
    ≡ ok (record { sequence_index = 0; byte_offset = 1; chunk_bytes = 2 ∷ 3 ∷ [] } ∷ [])
unfolding read_chunks peerc.Transfer.Chunker.chunk_loop
read_small = refl

chunk_stored :
    (handle_chunk nobody working started "alice" whole_chunk).disk.files
    ≡ ("downloads/d.part", small_file) ∷ ("notes", 7 ∷ []) ∷ []
unfolding handle_chunk lookup insert align accept_chunk store write_file checkpoint_incoming
    incoming_transition_to incoming_transitions
chunk_stored = refl

-- The witnesses of the session's theorems.
started-WellFormed : WellFormed started
unfolding lookup
started-WellFormed k t h = elim (Bool-cases (str_eq "t1" k)) [
  | inl here ↦
      let key : "t1" ≡ k = ground (arith, eq_iff "t1" k) in
      let value : receiving_file ≡ t = ground arith in
      rw (sym key, sym value)
        (
          refl,
          ([], (refl, refl, refl, omega arith, omega arith)),
          λ j u g. elim (Bool-cases (str_eq "t1" j)) [
            | inl again ↦ inl (ground (arith, eq_iff "t1" j))
            | inr other ↦ absurd (ground arith)
          ],
        )
  | inr other ↦ absurd (ground arith)
]

handle_chunk-WellFormed_example :
    WellFormed (handle_chunk nobody working started "alice" whole_chunk)
handle_chunk-WellFormed_example =
    handle_chunk-WellFormed nobody working started "alice" whole_chunk started-WellFormed

read_chunks-covers_example :
    (chunks : List Chunk) × (read_chunks small_file 1 2 ≡ ok chunks)
    × (joined chunks ≡ 2 ∷ 3 ∷ [])
    × Consecutive 0 1 chunks
read_chunks-covers_example = read_chunks-covers small_file 1 2 (omega arith) (omega arith)

started_found : lookup "t1" started.incoming ≡ some receiving_file
unfolding lookup
started_found = refl

receives : incoming_transition_to accepted receiving ≡ ok receiving
unfolding incoming_transition_to incoming_transitions
receives = refl

abbrev late_chunk : FileData String
late_chunk = record { transfer_id = "t1"; sequence = 4; offset = 0; body = small_file }

part_named : receiving_file.part_path ≢ ""
part_named e = ground (arith, eq_iff "downloads/d.part" "")

stray_chunk_aborts_example :
    let after = handle_chunk nobody working started "alice" late_chunk in
    (lookup "t1" after.incoming ≡ none)
    × (lookup "downloads/d.part" after.disk.files ≡ none)
    × (lookup "downloads/d" after.disk.files ≡ none)
    × (after.sent ≡ file_complete_ack "alice" "t1" false (some out_of_order_chunk) ∷ [])
    × ((j : String) → j ≢ "t1" → lookup j after.incoming ≡ lookup j started.incoming)
    × Untouched "downloads/d.part" "downloads/d" started.disk after.disk
stray_chunk_aborts_example =
    stray_chunk_aborts nobody working started "alice" late_chunk receiving_file started_found refl
      receives (inl refl) (inl (λ e. omega (arith, e))) refl refl part_named

offering_own : (t : Outgoing) → lookup "u1" started.outgoing ≡ some t → t.transfer_id ≡ "u1"
unfolding lookup
offering_own t h = let same : offering ≡ t = ground arith in rw (sym same) refl

abbrev answers : List (String × Reply)
answers = ("alice", accept (some 0)) ∷ ("mallory", complete_ack false) ∷ ("alice", reject) ∷ []

upload_reported_once_example :
    (news : List Completion) × ((after_replies started "u1" answers).completions ≡ news)
    × (length news ≤ 1)
    × (lookup "u1" started.outgoing ≡ none → news ≡ [])
upload_reported_once_example = upload_reported_once started "u1" answers offering_own

offering_ids : (j : String) (t : Outgoing) → lookup j started.outgoing ≡ some t → t.transfer_id ≡ j
unfolding lookup
offering_ids j t h = elim (Bool-cases (str_eq "u1" j)) [
  | inl here ↦
      let same : offering ≡ t = ground arith in rw (sym same) (ground (arith, eq_iff "u1" j))
  | inr other ↦ absurd (ground arith)
]

abbrev bad_state : ErrorInfo
bad_state = record { code = internal_error; transfer_id = some "t1" }

-- Partial downloads of two scans of the same file.
abbrev partial_of : String → ℕ → PartialInfo
partial_of path updated_at = record {
  part_path = path;
  dest_name = "d";
  peer_device_id = "p1";
  filename = "d";
  size = 200000;
  checksum = "three";
  committed = 3;
  updated_at = updated_at;
}

abbrev scan : List (Option PartialInfo)
scan =
    none
    ∷ some (partial_of "gone.part" 9)
    ∷ some (partial_of "notes" 1)
    ∷ some (partial_of "downloads/d.part" 4)
    ∷ []

abbrev offer_of_d : Offer
offer_of_d = record { peer_device_id = "p1"; filename = "d"; size = 200000; checksum = "three" }

latest_found : find_resumable filled.disk offer_of_d scan ≡ some (partial_of "downloads/d.part" 4)
unfolding find_resumable find_from is_for part_is_usable better lookup
latest_found = refl

find_resumable-latest_example :
    ((find_resumable filled.disk offer_of_d scan ≡ none)
      × All
          (λ (entry : Option PartialInfo).
            (info : PartialInfo) → entry ≡ some info → Fits filled.disk offer_of_d info → ⊥)
          scan)
    ⊎ ((found : PartialInfo) × (find_resumable filled.disk offer_of_d scan ≡ some found)
        × Fits filled.disk offer_of_d found
        × NoLater filled.disk offer_of_d found.updated_at scan)
find_resumable-latest_example = find_resumable-latest filled.disk offer_of_d scan

filled_part : lookup "downloads/d.part" filled.disk.files ≡ some small_file
unfolding lookup
filled_part = refl

two_committed : 1 * 2 ≤ 3
two_committed = omega arith

two_held : 1 * 2 ≤ length small_file
two_held = omega arith

two_of_many : 1 * 2 ≤ 200000
two_of_many = omega arith

resume_offset_trusted_example :
    let offset = resume_offset_for filled.disk (partial_of "downloads/d.part" 4) 2 in
    (offset % 2 ≡ 0)
    × (offset ≤ 3)
    × (offset ≤ length small_file)
    × (offset ≤ 200000)
    × (1 * 2 ≤ offset)
resume_offset_trusted_example =
    resume_offset_trusted filled.disk (partial_of "downloads/d.part" 4) 2 small_file 1 (omega arith)
      filled_part two_committed two_held two_of_many

elsewhere :
    (path : String) (updated_at : ℕ) (info : PartialInfo) (r : String)
    → some (partial_of path updated_at) ≡ some info
    → r ≢ path
    → r ≢ info.part_path
elsewhere path updated_at info r e off same =
    let path_same : info.part_path ≡ path = ground arith in off (same ∙ path_same)

old_swept : (sweep_expired working 20 13 scan filled.disk).1 ≡ "notes" ∷ "downloads/d.part" ∷ []
unfolding sweep_expired is_expired
old_swept = refl
