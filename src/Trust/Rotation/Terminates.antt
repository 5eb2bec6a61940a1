-- ===== src/Trust/Rotation/Terminates.antt =====
-- The walk over the rotations ends within its fuel.
use peerc.Common.{
  ◌≡◌, refl, ap, ◌∙◌, inl, inr, ℕ, zero, suc, ◌+◌, ◌*◌, ◌≤◌, List, [], ◌∷◌, ◌++◌, length,
  length-append, false, some, String, eq_iff, if◌then◌else◌, arith, Bool-cases,
}
use mathlib.Core.List.{reverse, reverse-cons}
use peerc.Trust.Store.{TransitionCertificate, TrustStore}
use peerc.Trust.Rotation.{
  mem, successors, predecessors, walk, walk_fuel, sorted, order_key, sorted_of, get_rotation_chain,
}

length-reverse : (xs : List String) → length (reverse xs) ≡ length xs
length-reverse [] = refl
length-reverse (x ∷ xs) =
    ap (λ (l : List String). length l) (reverse-cons x xs)
    ∙ omega (arith, length-append (reverse xs) (x ∷ []), length-reverse xs)

-- The ids that certificates may still put on the queue.
abbrev unvisited : List TransitionCertificate → List String → ℕ
unvisited [] visited = 0
unvisited (c ∷ cs) visited =
    (if mem c.old_device_id visited then 0 else 1)
    + (if mem c.new_device_id visited then 0 else 1)
    + unvisited cs visited

visit-unvisited :
    (cs : List TransitionCertificate) (current : String) (visited : List String)
    → mem current visited ≡ false
    → length (successors cs current)
        + length (predecessors cs current)
        + unvisited cs (current ∷ visited)
      ≡ unvisited cs visited
unfolding successors predecessors mem
visit-unvisited [] current visited new = refl
visit-unvisited (c ∷ cs) current visited new = ground (
  arith,
  eq_iff c.old_device_id current,
  eq_iff c.new_device_id current,
  eq_iff current c.old_device_id,
  eq_iff current c.new_device_id,
  visit-unvisited cs current visited new,
)

unvisited-bound : (cs : List TransitionCertificate) → unvisited cs [] ≤ 2 * length cs
unfolding mem
unvisited-bound [] = omega arith
unvisited-bound (c ∷ cs) = omega (arith, unvisited-bound cs)

length-pushed :
    (cs : List TransitionCertificate) (current : String) (queue : List String)
    → length (reverse (predecessors cs current) ++ (reverse (successors cs current) ++ queue))
      ≡ length (successors cs current) + length (predecessors cs current) + length queue
length-pushed cs current queue = omega (
  arith,
  length-append (reverse (predecessors cs current)) (reverse (successors cs current) ++ queue),
  length-append (reverse (successors cs current)) queue,
  length-reverse (predecessors cs current),
  length-reverse (successors cs current),
)

pub walk_ends :
    (cs : List TransitionCertificate) (fuel : ℕ) (queue visited : List String)
    → unvisited cs visited + length queue ≤ fuel
    → (found : List String) × (walk cs fuel queue visited ≡ some found)
unfolding walk
walk_ends cs fuel [] visited h = (visited, ground arith)
walk_ends cs zero (current ∷ queue) visited h = absurd (omega arith)
walk_ends cs (suc fuel) (current ∷ queue) visited h = elim (Bool-cases (mem current visited)) [
  | inl old ↦
      let (found, ends) = walk_ends cs fuel queue visited (omega arith) in (found, rw (old) ends)
  | inr new ↦
      let (found, ends) =
        walk_ends cs fuel
          (reverse (predecessors cs current) ++ (reverse (successors cs current) ++ queue))
          (current ∷ visited)
          (omega (arith, visit-unvisited cs current visited new, length-pushed cs current queue)) in
      (found, rw (new) ends)
]

-- Whatever rotations are stored, `get_rotation_chain` ends, within one round more than twice their
-- number.
pub get_rotation_chain_ends :
    (store : TrustStore) (device_id : String)
    → (visited : List String) × (walk store.transitions
          (walk_fuel store.transitions)
          (device_id ∷ [])
          []
        ≡ some visited)
      × (get_rotation_chain store device_id ≡ some (sorted (order_key store.transitions) visited))
unfolding get_rotation_chain sorted_of
get_rotation_chain_ends store device_id =
    let cs = store.transitions in
    let (visited, ends) =
      walk_ends cs (walk_fuel cs) (device_id ∷ []) [] (omega (arith, unvisited-bound cs)) in
    (visited, ends, rw (ends) refl)
