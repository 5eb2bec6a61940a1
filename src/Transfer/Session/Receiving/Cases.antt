-- ===== src/Transfer/Session/Receiving/Cases.antt =====
-- One call of `_handle_chunk` for a transfer that is on the disk: what checks, restart, write and
-- commit make of the transfer and of its part file.
use peerc.Common.{
  ◌≡◌, ◌≢◌, refl, sym, ap, ◌∙◌, ◌⊎◌, inl, inr, ℕ, ◌+◌, ◌-◌, ◌≤◌, [], ◌++◌, true, Option, some,
  length, length-append, String, str_eq, arith, Option-cases, Bool-cases, not, ◌||◌, ◌&&◌, ◌==◌,
  ltb, leb, ok, err,
}
use peerc.Common.Dicts.{lookup}
use peerc.Protocol.Bytes.{Bytes}
use peerc.Protocol.Binary.{FileData}
use peerc.Transfer.Disk.{
  Disk, Io, write_at, write_at_end, write_file, truncate_file, write_meta, whole_chunks,
}
use peerc.Transfer.Disk.Frame.{
  write_file-at, write_file-elsewhere, truncate_file-at, truncate_file-elsewhere, write_meta-files,
}
use peerc.Transfer.Session.{
  Incoming, Reason, os_error, out_of_order_chunk, declared_size_exceeded, disk_full,
}
use peerc.Transfer.Session.Receiving.{
  commit_interval, restarted, sidecar_of, given, device_of, checkpoint_incoming, restart, align,
  store, accept_chunk,
}

-- The part file has exactly the bytes that the transfer counts, the handle stands at its end, and
-- the counters are within the size of the offer.
abbrev pub Holds : Disk → Incoming → Bytes → Type 0
Holds disk t content =
    (lookup t.part_path disk.files ≡ some content)
    × (length content ≡ t.bytes_received)
    × (t.position ≡ t.bytes_received)
    × (t.bytes_received ≤ t.size)
    × (t.last_committed ≤ t.bytes_received)

-- The parts of a transfer that no chunk changes.
abbrev pub SameOffer : Incoming → Incoming → Type 0
SameOffer t u =
    (u.transfer_id ≡ t.transfer_id)
    × (u.addr_key ≡ t.addr_key)
    × (u.size ≡ t.size)
    × (u.part_path ≡ t.part_path)
    × (u.dest_path ≡ t.dest_path)
    × (u.expected_checksum ≡ t.expected_checksum)

-- Only the part file may differ.
abbrev pub OnlyPart : Incoming → Disk → Disk → Type 0
OnlyPart t before after =
    (r : String) → r ≢ t.part_path → lookup r after.files ≡ lookup r before.files

whole_chunks-le : (n : ℕ) → whole_chunks n ≤ n
whole_chunks-le n = omega arith

-- The count and the write that go before a checkpoint.
abbrev pub counted : Incoming → Bytes → Incoming
counted t chunk = record t {
  bytes_received = t.bytes_received + length chunk;
  expected_chunk_index = t.expected_chunk_index + 1;
  position = t.position + length chunk;
}

abbrev pub seen : Incoming → Incoming
seen t = record t { first_chunk_received = true }

module _ (getter : String → Option String) where
  -- A checkpoint changes no file and moves the commit mark within what was received.
  pub checkpoint-cases :
      (io : Io) (disk : Disk) (t : Incoming)
      → ((checkpoint_incoming getter io disk t).0.files ≡ disk.files)
        × (c : ℕ) × ((c ≡ t.last_committed) ⊎ (c ≡ whole_chunks t.bytes_received))
        × ((checkpoint_incoming getter io disk t).1 ≡ record t { last_committed = c })
  unfolding checkpoint_incoming
  checkpoint-cases io disk t = elim (Option-cases (device_of getter t)) [
    | inl nobody ↦ (ground arith, t.last_committed, inl refl, ground arith)
    | inr (device, known) ↦ elim (Bool-cases (str_eq t.part_path "" || not io.syncs)) [
      | inl skip ↦ (ground arith, t.last_committed, inl refl, ground arith)
      | inr go ↦ (
        ground (
          arith,
          write_meta-files io t.part_path (sidecar_of t device (whole_chunks t.bytes_received))
              disk,
        ),
        whole_chunks t.bytes_received,
        inr refl,
        ground arith,
      )
    ]
  ]

  counted-Holds :
      (disk : Disk) (t : Incoming) (chunk content : Bytes)
      → Holds disk t content
      → t.bytes_received + length chunk ≤ t.size
      → Holds (write_file t.position t.part_path chunk disk) (counted t chunk) (content ++ chunk)
  counted-Holds disk t chunk content (there, long, at_end, fits, marked) room = (
    write_file-at t.position t.part_path chunk disk there
        ∙ ap (λ n. some (write_at n chunk content)) (at_end ∙ sym long)
        ∙ ap some (write_at_end content chunk),
    omega (arith, length-append content chunk),
    omega arith,
    room,
    omega arith,
  )

  store-shape :
      (io : Io) (disk : Disk) (t : Incoming) (chunk : Bytes)
      → let u = counted t chunk in
        ((store getter io disk t chunk).0.files
          ≡ (write_file t.position t.part_path chunk disk).files)
        × (c : ℕ) × ((c ≡ t.last_committed) ⊎ (c ≡ whole_chunks u.bytes_received))
        × ((store getter io disk t chunk).1 ≡ record u { last_committed = c })
  unfolding store
  store-shape io disk t chunk =
      let u = counted t chunk in
      elim (Bool-cases (leb commit_interval (u.bytes_received - u.last_committed))) [
        | inl due ↦
            let (files, c, mark, shape) =
              checkpoint-cases io (write_file t.position t.part_path chunk disk) u in
            (rw (due) files, c, mark, rw (due) shape)
        | inr early ↦ (rw (early) refl, t.last_committed, inl refl, rw (early) refl)
      ]

  -- What is stored is appended to the part file, and counted; the commit mark may move.
  pub store-appends :
      (io : Io) (disk : Disk) (t : Incoming) (chunk content : Bytes)
      → Holds disk t content
      → t.bytes_received + length chunk ≤ t.size
      → (after : Disk) × (c : ℕ) × (store getter io disk t chunk
          ≡ (after, record (counted t chunk) { last_committed = c }))
        × Holds after (record (counted t chunk) { last_committed = c }) (content ++ chunk)
        × OnlyPart t disk after
  store-appends io disk t chunk content held room =
      let (files, c, mark, shape) = store-shape io disk t chunk in
      let (there, long, at_end, fits, marked) = counted-Holds disk t chunk content held room in
      let within : c ≤ t.bytes_received + length chunk = elim mark [
        | inl kept ↦ omega arith
        | inr moved ↦ omega (arith, whole_chunks-le (t.bytes_received + length chunk))
      ] in
      (
        (store getter io disk t chunk).0,
        c,
        ap (λ u. ((store getter io disk t chunk).0, u)) shape,
        (ap (lookup t.part_path) files ∙ there, long, at_end, fits, within),
        λ r off. ap (lookup r) files ∙ write_file-elsewhere t.position t.part_path chunk disk r off,
      )

  restart-empties :
      (io : Io) (disk : Disk) (t : Incoming) (content : Bytes)
      → Holds disk t content
      → (restart getter io disk t ≡ err os_error)
        ⊎ ((after : Disk) × (restart getter io disk t ≡ ok (after, restarted t))
            × Holds after (restarted t) []
            × OnlyPart t disk after)
  unfolding restart
  restart-empties io disk t content (there, long, at_end, fits, marked) =
      let empty = truncate_file t.part_path disk in
      elim (Bool-cases io.truncates) [
        | inr fails ↦ inl (ground arith)
        | inl works ↦ elim (Option-cases (given (getter t.addr_key))) [
          | inl nobody ↦ inr (
            empty,
            ground arith,
            (truncate_file-at t.part_path disk there, refl, refl, omega arith, omega arith),
            truncate_file-elsewhere t.part_path disk,
          )
          | inr (device, known) ↦
              let files = write_meta-files io t.part_path (sidecar_of t device 0) empty in
              inr (
                write_meta io t.part_path (sidecar_of t device 0) empty,
                ground arith,
                (
                  ap (lookup t.part_path) files ∙ truncate_file-at t.part_path disk there,
                  refl,
                  refl,
                  omega arith,
                  omega arith,
                ),
                λ r off. ap (lookup r) files ∙ truncate_file-elsewhere t.part_path disk r off,
              )
        ]
      ]

  -- The first check lets a chunk through, with the part file as it was or emptied, or refuses it.
  pub align-cases :
      (io : Io) (disk : Disk) (t : Incoming) (message : FileData String) (content : Bytes)
      → Holds disk t content
      → ((reason : Reason) × (align getter io disk t message ≡ err reason))
        ⊎ (align getter io disk t message ≡ ok (disk, seen t))
        ⊎ ((after : Disk) × (align getter io disk t message ≡ ok (after, restarted (seen t)))
            × Holds after (restarted (seen t)) []
            × OnlyPart t disk after)
  unfolding align
  align-cases io disk t message content held =
      elim (Bool-cases (ltb 0 t.resume_offset && not t.first_chunk_received)) [
        | inr going ↦ inr (inl (ground arith))
        | inl first ↦
            elim (Bool-cases
              (message.sequence == t.expected_chunk_index && message.offset == t.bytes_received)) [
                | inl resumes ↦ inr (inl (ground arith))
                | inr differs ↦ elim (Bool-cases (message.sequence == 0 && message.offset == 0)) [
                  | inr neither ↦ inl (out_of_order_chunk, ground arith)
                  | inl again ↦ elim (restart-empties io disk (seen t) content held) [
                    | inl fails ↦ inl (os_error, ground arith)
                    | inr (after, result, empty, only) ↦
                        inr (inr (after, ground arith, empty, only))
                  ]
                ]
              ]
      ]

  -- A chunk that passes the checks is the next one, fits in the offer, and is stored.
  pub accept-cases :
      (io : Io) (disk : Disk) (t : Incoming) (message : FileData String)
      → ((reason : Reason) × (accept_chunk getter io disk t message ≡ err reason))
        ⊎ ((message.sequence ≡ t.expected_chunk_index)
            × (message.offset ≡ t.bytes_received)
            × (t.bytes_received + length message.body ≤ t.size)
            × (io.writes ≡ true)
            × (accept_chunk getter io disk t message ≡ ok (store getter io disk t message.body)))
  unfolding accept_chunk
  accept-cases io disk t message =
      elim (Bool-cases (
        not (message.sequence == t.expected_chunk_index)
        || not (message.offset == t.bytes_received))) [
          | inl strays ↦ inl (out_of_order_chunk, ground arith)
          | inr next ↦ elim (Bool-cases (ltb t.size (t.bytes_received + length message.body))) [
            | inl bursts ↦ inl (declared_size_exceeded, ground arith)
            | inr fits ↦ elim (Bool-cases io.writes) [
              | inr full ↦ inl (disk_full, ground arith)
              | inl works ↦ inr (ground arith)
            ]
          ]
        ]
