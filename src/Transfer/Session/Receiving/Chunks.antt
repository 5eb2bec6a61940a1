-- ===== src/Transfer/Session/Receiving/Chunks.antt =====
-- `_handle_chunk` on a session: the three ways that a call for a known transfer ends.
use peerc.Common.{
  ◌≡◌, refl, ◌∙◌, ◌⊎◌, inl, inr, [], ◌++◌, Option, Bool-cases, contains, some, length, String,
  arith, ok, err,
}
use peerc.Common.Dicts.{lookup}
use peerc.Protocol.Bytes.{Bytes}
use peerc.Protocol.Binary.{FileData}
use peerc.Protocol.Errors.{invalid_state}
use peerc.TransferState.{
  IncomingState, IncomingState-discrete, incoming_transitions, receiving, InvalidTransferTransition,
  incoming_transition_to, cannot_transition,
}
use peerc.Transfer.Disk.{Disk, Io}
use peerc.Transfer.Session.{Incoming, Session, Reason, report_once, notify_progress, put_incoming}
use peerc.Transfer.Session.Receiving.{restarted, abort_incoming, handle_chunk}
use peerc.Transfer.Session.Receiving.Cases.{
  Holds, SameOffer, OnlyPart, counted, seen, store-appends, align-cases, accept-cases,
}

-- A transfer that has been moved to `receiving`.
abbrev pub entered : Incoming → Incoming
entered t = record t { state = receiving }

receiving-only :
    (s : IncomingState)
    → ((e : InvalidTransferTransition IncomingState) × (incoming_transition_to s receiving ≡ err e))
      ⊎ (incoming_transition_to s receiving ≡ ok receiving)
unfolding incoming_transition_to
receiving-only s =
    elim (Bool-cases (contains IncomingState-discrete receiving (incoming_transitions s))) [
      | inl listed ↦ inr (ground arith)
      | inr missing ↦ inl (cannot_transition s receiving, ground arith)
    ]

module _ (getter : String → Option String) where
  -- The call was refused, and the session keeps its transfers and files.
  abbrev pub Refused : Io → Session → String → FileData String → Type 0
  Refused io session addr_key message =
      handle_chunk getter io session addr_key message
      ≡ report_once session addr_key invalid_state message.transfer_id

  -- The transfer was aborted, for a reason, from files that differ in its part file at most.
  abbrev pub Aborted : Io → Session → String → FileData String → Incoming → Type 0
  Aborted io session addr_key message t =
      (disk : Disk) × (u : Incoming) × (reason : Reason) × (handle_chunk getter io session addr_key
          message
        ≡ abort_incoming io (record session { disk = disk }) u reason)
      × SameOffer t u
      × (u.state ≡ receiving)
      × OnlyPart t session.disk disk

  -- The chunk was stored behind what is kept: the bytes before it, or none after a restart.
  abbrev pub Stored : Io → Session → String → FileData String → Incoming → Bytes → Type 0
  Stored io session addr_key message t content =
      (disk : Disk) × (u : Incoming) × (handle_chunk getter io session addr_key message
        ≡ notify_progress (put_incoming message.transfer_id u (record session { disk = disk }))
            u.transfer_id u.bytes_received u.size)
      × SameOffer t u
      × (u.state ≡ receiving)
      × OnlyPart t session.disk disk
      × Holds disk u (content ++ message.body)
      × (message.offset ≡ length content)

  pub handle_chunk-cases :
      (io : Io) (session : Session) (addr_key : String) (message : FileData String) (t : Incoming)
      (content : Bytes)
      → lookup message.transfer_id session.incoming ≡ some t
      → Holds session.disk t content
      → Refused io session addr_key message
        ⊎ Aborted io session addr_key message t
        ⊎ Stored io session addr_key message t content
        ⊎ Stored io session addr_key message t []
  unfolding handle_chunk
  handle_chunk-cases io session addr_key message t content found held =
      elim (receiving-only t.state) [
        | inl (e, refused) ↦ inl (ground arith)
        | inr goes ↦ elim (align-cases getter io session.disk (entered t) message content held) [
          | inl (reason, strays) ↦ inr (
              inl
                (session.disk, entered t, reason, ground arith, ground arith, refl, λ r off. refl))
          | inr (inl aligned) ↦
              elim (accept-cases getter io session.disk (seen (entered t)) message) [
                | inl (reason, strays) ↦ inr (
                    inl (
                      session.disk,
                      seen (entered t),
                      reason,
                      ground arith,
                      ground arith,
                      refl,
                      λ r off. refl,
                    ))
                | inr (next, at, fits, works, taken) ↦
                    let (disk, c, result, now, only) =
                      store-appends getter io session.disk (seen (entered t)) message.body content
                        held fits in
                    inr (
                      inr (
                        inl (
                          disk,
                          record (counted (seen (entered t)) message.body) { last_committed = c },
                          ground arith,
                          ground arith,
                          refl,
                          only,
                          now,
                          ground arith,
                        )))
              ]
          | inr (inr (emptied, aligned, empty, only)) ↦
              elim (accept-cases getter io emptied (restarted (seen (entered t))) message) [
                | inl (reason, strays) ↦ inr (
                    inl (
                      emptied,
                      restarted (seen (entered t)),
                      reason,
                      ground arith,
                      ground arith,
                      refl,
                      only,
                    ))
                | inr (next, at, fits, works, taken) ↦
                    let (disk, c, result, now, after) =
                      store-appends getter io emptied (restarted (seen (entered t))) message.body []
                        empty fits in
                    inr (
                      inr (
                        inr (
                          disk,
                          record (counted (restarted (seen (entered t))) message.body) {
                            last_committed = c;
                          },
                          ground arith,
                          ground arith,
                          refl,
                          λ r off. after r off ∙ only r off,
                          now,
                          at,
                        )))
              ]
        ]
      ]
