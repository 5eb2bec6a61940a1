-- ===== src/Trust/Rotation/Component.antt =====
-- The chain is the set of all devices that rotations connect, in both directions.
use mathlib.Core.Path.{subst}
use peerc.Common.{
  ◌≡◌, refl, sym, ◌∙◌, ◌⊎◌, ◌↔◌, inl, inr, ℕ, zero, suc, List, [], ◌∷◌, ◌++◌, true, some, String,
  str_eq, eq_iff, if◌then◌else◌, arith, Bool-cases,
}
use mathlib.Core.List.{reverse}
use peerc.Trust.Store.{TransitionCertificate, TrustStore}
use peerc.Trust.Rotation.{
  mem, successors, predecessors, walk, walk_fuel, insert_by, sorted, order_key, get_rotation_chain,
}
use peerc.Trust.Rotation.Links.{
  Rotated, Connected, here, forward, backward, In, mem-pushed, successors-Rotated,
  predecessors-Rotated, head-In, tail-In,
}
use peerc.Trust.Rotation.Terminates.{get_rotation_chain_ends}

-- The ids of a list are connected with `a`.
abbrev AllConnected : List TransitionCertificate → String → List String → Type 0
AllConnected cs a xs = (x : String) → In x xs → Connected cs a x

visit_sound :
    (cs : List TransitionCertificate) (a current : String) (queue : List String)
    → Connected cs a current
    → AllConnected cs a queue
    → AllConnected cs a
        (reverse (predecessors cs current) ++ (reverse (successors cs current) ++ queue))
visit_sound cs a current queue there others x h =
    let pushed = mem-pushed x (predecessors cs current) (successors cs current) queue in
    elim (Bool-cases (mem x (predecessors cs current))) [
      | inl before ↦ backward there ((predecessors-Rotated cs current x).0 before)
      | inr not_before ↦ elim (Bool-cases (mem x (successors cs current))) [
        | inl next ↦ forward there ((successors-Rotated cs current x).0 next)
        | inr not_next ↦ others x (ground arith)
      ]
    ]

cons_sound :
    (cs : List TransitionCertificate) (a current : String) (visited : List String)
    → Connected cs a current
    → AllConnected cs a visited
    → AllConnected cs a (current ∷ visited)
unfolding mem
cons_sound cs a current visited there others x h = elim (Bool-cases (str_eq current x)) [
  | inl same ↦ subst (Connected cs a) ((eq_iff current x).0 same) there
  | inr other ↦ others x (ground arith)
]

walk_sound :
    (cs : List TransitionCertificate) (a : String) (fuel : ℕ) (queue visited found : List String)
    → walk cs fuel queue visited ≡ some found
    → AllConnected cs a visited
    → AllConnected cs a queue
    → AllConnected cs a found
unfolding walk
walk_sound cs a fuel [] visited found ends seen waiting x h =
    let same : found ≡ visited = ground arith in seen x (rw same at (h))
walk_sound cs a zero (current ∷ queue) visited found ends seen waiting x h = absurd (ground arith)
walk_sound cs a (suc fuel) (current ∷ queue) visited found ends seen waiting x h =
    let there = waiting current (head-In current queue) in
    let others = λ (y : String) (k : In y queue). waiting y (tail-In y current queue k) in
    elim (Bool-cases (mem current visited)) [
      | inl old ↦
          walk_sound cs a fuel queue visited found (rw (old, walk) at (ends)) seen others x h
      | inr new ↦
          walk_sound cs a fuel
            (reverse (predecessors cs current) ++ (reverse (successors cs current) ++ queue))
            (current ∷ visited) found (rw (new, walk) at (ends))
            (cons_sound cs a current visited there seen)
            (visit_sound cs a current queue there others) x h
    ]

-- Two ids that a certificate links, one way or the other.
abbrev Linked : List TransitionCertificate → String → String → Type 0
Linked cs a b = Rotated cs a b ⊎ Rotated cs b a

-- What is linked with a visited id is visited or waits.
abbrev Closed : List TransitionCertificate → List String → List String → Type 0
Closed cs visited queue = (v x : String) → In v visited → Linked cs v x → In x visited ⊎ In x queue

visit-Closed :
    (cs : List TransitionCertificate) (current : String) (queue visited : List String)
    → Closed cs visited (current ∷ queue)
    → Closed cs
        (current ∷ visited)
        (reverse (predecessors cs current) ++ (reverse (successors cs current) ++ queue))
unfolding mem
visit-Closed cs current queue visited closed v x h link =
    let pushed = mem-pushed x (predecessors cs current) (successors cs current) queue in
    elim (Bool-cases (str_eq current v)) [
      | inl same ↦
          let new : current ≡ v = (eq_iff current v).0 same in
          elim link [
            | inl next ↦
                let found =
                  (successors-Rotated cs current x).1
                    (subst (λ (k : String). Rotated cs k x) (sym new) next) in
                inr (ground arith)
            | inr before ↦
                let found =
                  (predecessors-Rotated cs current x).1
                    (subst (λ (k : String). Rotated cs x k) (sym new) before) in
                inr (ground arith)
          ]
      | inr other ↦ elim (closed v x (ground arith) link) [
        | inl seen ↦ inl (ground arith)
        | inr waits ↦ elim (Bool-cases (str_eq current x)) [
          | inl now ↦ inl (ground arith)
          | inr later ↦ inr (ground arith)
        ]
      ]
    ]

skip-Closed :
    (cs : List TransitionCertificate) (current : String) (queue visited : List String)
    → In current visited
    → Closed cs visited (current ∷ queue)
    → Closed cs visited queue
unfolding mem
skip-Closed cs current queue visited old closed v x h link = elim (closed v x h link) [
  | inl seen ↦ inl seen
  | inr waits ↦ elim (Bool-cases (str_eq current x)) [
    | inl now ↦ inl (subst (λ (k : String). In k visited) ((eq_iff current x).0 now) old)
    | inr later ↦ inr (ground arith)
  ]
]

pub not-In_nil : (x : String) → In x [] → ⊥
unfolding mem
not-In_nil x h = ground arith

skipped :
    (current : String) (queue visited : List String) (x : String)
    → In current visited
    → In x visited ⊎ In x (current ∷ queue)
    → In x visited ⊎ In x queue
unfolding mem
skipped current queue visited x old (inl seen) = inl seen
skipped current queue visited x old (inr waits) = elim (Bool-cases (str_eq current x)) [
  | inl now ↦ inl (subst (λ (k : String). In k visited) ((eq_iff current x).0 now) old)
  | inr later ↦ inr (ground arith)
]

visited_too :
    (cs : List TransitionCertificate) (current : String) (queue visited : List String) (x : String)
    → In x visited ⊎ In x (current ∷ queue)
    → In x (current ∷ visited)
      ⊎ In x (reverse (predecessors cs current) ++ (reverse (successors cs current) ++ queue))
unfolding mem
visited_too cs current queue visited x (inl seen) = inl (ground arith)
visited_too cs current queue visited x (inr waits) =
    let pushed = mem-pushed x (predecessors cs current) (successors cs current) queue in
    elim (Bool-cases (str_eq current x)) [
      | inl now ↦ inl (ground arith)
      | inr later ↦ elim (Bool-cases (mem x (predecessors cs current))) [
        | inl p ↦ inr (ground arith)
        | inr np ↦ elim (Bool-cases (mem x (successors cs current))) [
          | inl q ↦ inr (ground arith)
          | inr nq ↦ inr (ground arith)
        ]
      ]
    ]

-- What was visited or waited is found, and what is linked with something found is found.
walk_complete :
    (cs : List TransitionCertificate) (fuel : ℕ) (queue visited found : List String)
    → walk cs fuel queue visited ≡ some found
    → Closed cs visited queue
    → ((x : String) → In x visited ⊎ In x queue → In x found) × Closed cs found []
unfolding walk
walk_complete cs fuel [] visited found ends closed =
    let same : visited ≡ found = ground arith in
    (
      λ x h. elim h [ inl seen ↦ subst (In x) same seen | inr waits ↦ absurd (not-In_nil x waits) ],
      subst (λ (l : List String). Closed cs l []) same closed,
    )
walk_complete cs zero (current ∷ queue) visited found ends closed = absurd (ground arith)
walk_complete cs (suc fuel) (current ∷ queue) visited found ends closed =
    elim (Bool-cases (mem current visited)) [
      | inl old ↦
          let (reached, shut) =
            walk_complete cs fuel queue visited found (rw (old, walk) at (ends))
              (skip-Closed cs current queue visited old closed) in
          (λ x h. reached x (skipped current queue visited x old h), shut)
      | inr new ↦
          let (reached, shut) =
            walk_complete cs fuel
              (reverse (predecessors cs current) ++ (reverse (successors cs current) ++ queue))
              (current ∷ visited) found (rw (new, walk) at (ends))
              (visit-Closed cs current queue visited closed) in
          (λ x h. reached x (visited_too cs current queue visited x h), shut)
    ]

mem-insert_by :
    (key : String → ℕ) (x y : String) (ys : List String)
    → mem x (insert_by key y ys) ≡ (if str_eq y x then true else mem x ys)
unfolding mem insert_by
mem-insert_by key x y [] = refl
mem-insert_by key x y (z ∷ zs) = ground (arith, mem-insert_by key x y zs)

mem-sorted : (key : String → ℕ) (x : String) (xs : List String) → mem x (sorted key xs) ≡ mem x xs
unfolding mem sorted
mem-sorted key x [] = refl
mem-sorted key x (y ∷ ys) = mem-insert_by key x y (sorted key ys) ∙ rw (mem-sorted key x ys) refl

-- A set that is closed under links has all that is connected with one of its ids.
Connected-In :
    (cs : List TransitionCertificate) (a : String) (found : List String)
    → In a found
    → Closed cs found []
    → (x : String) → Connected cs a x
    → In x found
Connected-In cs a found start shut x here = start
Connected-In cs a found start shut x (forward {b} rest link) =
    elim (shut b x (Connected-In cs a found start shut b rest) (inl link)) [
      | inl seen ↦ seen
      | inr waits ↦ absurd (not-In_nil x waits)
    ]
Connected-In cs a found start shut x (backward {b} rest link) =
    elim (shut b x (Connected-In cs a found start shut b rest) (inr link)) [
      | inl seen ↦ seen
      | inr waits ↦ absurd (not-In_nil x waits)
    ]

alone : (cs : List TransitionCertificate) (a x : String) → In x (a ∷ []) → Connected cs a x
unfolding mem
alone cs a x h = subst (Connected cs a) ((eq_iff a x).0 (ground arith)) here

-- `get_rotation_chain` answers, and its answer has exactly the devices that are connected with the
-- given one by stored rotations, followed forward and backward.
pub get_rotation_chain-iff-Connected :
    (store : TrustStore) (device_id : String)
    → (chain : List String) × (get_rotation_chain store device_id ≡ some chain)
      × ((x : String) → (In x chain) ↔ Connected store.transitions device_id x)
unfolding mem
get_rotation_chain-iff-Connected store device_id =
    let cs = store.transitions in
    let (visited, ends, answers) = get_rotation_chain_ends store device_id in
    let sound =
      walk_sound cs device_id (walk_fuel cs) (device_id ∷ []) [] visited ends
        (λ x h. absurd (not-In_nil x h)) (λ x h. alone cs device_id x h) in
    let (reached, shut) =
      walk_complete cs (walk_fuel cs) (device_id ∷ []) [] visited ends
        (λ v x h link. absurd (not-In_nil v h)) in
    (
      sorted (order_key cs) visited,
      answers,
      λ x. (
        λ h. sound x (sym (mem-sorted (order_key cs) x visited) ∙ h),
        λ h.
            mem-sorted (order_key cs) x visited
            ∙ Connected-In cs device_id visited (reached device_id (inr (head-In device_id [])))
                shut x h,
      ),
    )
