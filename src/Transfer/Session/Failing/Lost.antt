-- ===== src/Transfer/Session/Failing/Lost.antt =====
-- `handle_connection_lost`: what a lost connection does to the incoming transfers.
use peerc.Common.{
  ◌≡◌, refl, sym, ap, ◌∙◌, ◌⊎◌, inl, inr, List, [], ◌∷◌, All, true, Option, none, some,
  if◌then◌else◌, String, str_eq, eq_iff, arith, Bool-cases,
}
use peerc.Common.Dicts.{Dict, lookup, remove, lookup-remove}
use peerc.Transfer.Disk.{Disk, Io}
use peerc.Transfer.Session.{Incoming, Outgoing, Session, connection_lost}
use peerc.Transfer.Session.Upload.{fail_outgoing}
use peerc.Transfer.Session.Failing.{
  with_address, uploads_with_address, lose_incoming, lose_all, fail_all, handle_connection_lost,
}
use peerc.Transfer.Session.Failing.Peers.{keep_partial-files, fail_outgoing-reach}

-- Each entry is the one that its key finds, and carries the key as its id.
abbrev pub Registered : Dict Incoming → Type 0
Registered d =
    All (λ (e : String × Incoming). (lookup e.0 d ≡ some e.1) × (e.1.transfer_id ≡ e.0)) d

-- Some transfer of the list has the id.
unfoldable pub Among : String → List Incoming → Type 0
Among id [] = ⊥
Among id (t ∷ ts) = (t.transfer_id ≡ id) ⊎ Among id ts

-- A transfer of this peer that a key finds is in the list.
with_address-finds :
    (addr_key j : String) (t : Incoming) (whole d : Dict Incoming)
    → All (λ (e : String × Incoming). (lookup e.0 whole ≡ some e.1) × (e.1.transfer_id ≡ e.0)) d
    → lookup j d ≡ some t
    → t.addr_key ≡ addr_key
    → Among j (with_address addr_key d)
unfolding lookup with_address Among
with_address-finds addr_key j t whole [] own h with_it = absurd (ground arith)
with_address-finds addr_key j t whole ((k, u) ∷ d) ((found, name), own) h with_it =
    elim (Bool-cases (str_eq k j)) [
      | inl here ↦
          let same : u ≡ t = ground arith in
          let listed : str_eq u.addr_key addr_key ≡ true =
            ground (arith, eq_iff u.addr_key addr_key) in
          rw (listed) (inl (name ∙ ground (arith, eq_iff k j)))
      | inr other ↦
          let rest = with_address-finds addr_key j t whole d own (rw other at (h)) with_it in
          elim (Bool-cases (str_eq u.addr_key addr_key)) [
            | inl listed ↦ rw (listed) (inr rest)
            | inr skipped ↦ rw (skipped) rest
          ]
    ]

-- What is in the list is registered with this peer.
with_address-only :
    (addr_key j : String) (whole d : Dict Incoming)
    → All (λ (e : String × Incoming). (lookup e.0 whole ≡ some e.1) × (e.1.transfer_id ≡ e.0)) d
    → Among j (with_address addr_key d)
    → (t : Incoming) × (lookup j whole ≡ some t) × (t.addr_key ≡ addr_key)
unfolding with_address Among
with_address-only addr_key j whole [] all among = absurd among
with_address-only addr_key j whole ((k, u) ∷ d) ((found, name), all) among =
    elim (Bool-cases (str_eq u.addr_key addr_key)) [
      | inr skipped ↦ with_address-only addr_key j whole d all (rw skipped at (among))
      | inl listed ↦ elim (rw listed at (among)) [
        | inl called ↦ (
          u,
          ap (λ i. lookup i whole) (sym called ∙ name) ∙ found,
          ground (arith, eq_iff u.addr_key addr_key),
        )
        | inr later ↦ with_address-only addr_key j whole d all later
      ]
    ]

module _ (getter : String → Option String) where
  lose_incoming-reach :
      (io : Io) (device : Option String) (session : Session) (t : Incoming)
      → let after = lose_incoming getter io device session t in
        (after.incoming ≡ remove t.transfer_id session.incoming)
        × (after.disk.files ≡ session.disk.files)
  unfolding lose_incoming
  lose_incoming-reach io device session t = (refl, keep_partial-files io t _ session.disk)

  lose_all-files :
      (io : Io) (device : Option String) (session : Session) (ts : List Incoming)
      → (lose_all getter io device session ts).disk.files ≡ session.disk.files
  unfolding lose_all
  lose_all-files io device session [] = refl
  lose_all-files io device session (t ∷ ts) =
      lose_all-files io device (lose_incoming getter io device session t) ts
      ∙ (lose_incoming-reach io device session t).1

  -- A key that is gone stays gone.
  lose_all-gone :
      (io : Io) (device : Option String) (session : Session) (ts : List Incoming) (j : String)
      → (lookup j session.incoming ≡ none) ⊎ Among j ts
      → lookup j (lose_all getter io device session ts).incoming ≡ none
  unfolding lose_all Among
  lose_all-gone io device session [] j (inl gone) = gone
  lose_all-gone io device session [] j (inr among) = absurd among
  lose_all-gone io device session (t ∷ ts) j hyp =
      let step = (lose_incoming-reach io device session t).0 in
      let now : (lookup j (lose_incoming getter io device session t).incoming ≡ none) ⊎ Among j ts =
        elim (Bool-cases (str_eq t.transfer_id j)) [
          | inl here ↦
              inl (rw (step) (ground (arith, lookup-remove t.transfer_id j session.incoming)))
          | inr other ↦ elim hyp [
            | inl gone ↦
                inl (rw (step) (ground (arith, lookup-remove t.transfer_id j session.incoming)))
            | inr (inl called) ↦ absurd (ground (arith, eq_iff t.transfer_id j))
            | inr (inr later) ↦ inr later
          ]
        ] in
      lose_all-gone io device (lose_incoming getter io device session t) ts j now

  lose_all-kept :
      (io : Io) (device : Option String) (session : Session) (ts : List Incoming) (j : String)
      → (Among j ts → ⊥)
      → lookup j (lose_all getter io device session ts).incoming ≡ lookup j session.incoming
  unfolding lose_all Among
  lose_all-kept io device session [] j off = refl
  lose_all-kept io device session (t ∷ ts) j off =
      lose_all-kept io device (lose_incoming getter io device session t) ts j
        (λ among. off (inr among))
      ∙ ap (lookup j) (lose_incoming-reach io device session t).0
      ∙ elim (Bool-cases (str_eq t.transfer_id j)) [
        | inl here ↦ absurd (off (inl (ground (arith, eq_iff t.transfer_id j))))
        | inr other ↦ ground (arith, lookup-remove t.transfer_id j session.incoming)
      ]

  fail_all-reach :
      (session : Session) (ts : List Outgoing)
      → ((fail_all session ts).incoming ≡ session.incoming)
        × ((fail_all session ts).disk ≡ session.disk)
  unfolding fail_all
  fail_all-reach session [] = (refl, refl)
  fail_all-reach session (t ∷ ts) =
      let (incoming, disk, outgoing) = fail_outgoing-reach session t connection_lost in
      let (more, rest) = fail_all-reach (fail_outgoing session t connection_lost).0 ts in
      (more ∙ incoming, rest ∙ disk)

  -- When the connection to a peer is lost, every file stays as it was, no incoming transfer with that
  -- address is registered any more, and every one with another address is registered as before.
  connection_lost_keeps_files :
      (io : Io) (session : Session) (addr_key : String) (device : Option String)
      → Registered session.incoming
      → let after = handle_connection_lost getter io session addr_key device in
        (after.disk.files ≡ session.disk.files)
        × ((j : String) (t : Incoming)
            → lookup j session.incoming ≡ some t
            → lookup j after.incoming ≡ (if str_eq t.addr_key addr_key then none else some t))
  unfolding handle_connection_lost
  connection_lost_keeps_files io session addr_key device registered =
      let ts = with_address addr_key session.incoming in
      let lost = lose_all getter io device session ts in
      let (incoming, disk) = fail_all-reach lost (uploads_with_address addr_key lost.outgoing) in
      (
        ap (λ (d : Disk). d.files) disk ∙ lose_all-files io device session ts,
        λ j t h. ap (lookup j) incoming ∙ elim (Bool-cases (str_eq t.addr_key addr_key)) [
          | inl with_it ↦ rw (with_it) (
              lose_all-gone io device session ts j (
                inr (
                  with_address-finds addr_key j t session.incoming session.incoming registered h
                    (ground (arith, eq_iff t.addr_key addr_key)))))
          | inr other ↦ rw (other) (
              lose_all-kept io device session ts j (λ among.
                let (u, found, own) =
                  with_address-only addr_key j session.incoming session.incoming registered among in
                let same : u ≡ t = ground arith in
                let called : t.addr_key ≡ addr_key =
                  ap (λ (v : Incoming). v.addr_key) (sym same) ∙ own in
                ground (arith, eq_iff t.addr_key addr_key))
              ∙ h)
        ],
      )
