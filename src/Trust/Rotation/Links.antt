-- ===== src/Trust/Rotation/Links.antt =====
-- Devices that certificates connect, and membership in the lists of the walk.
use peerc.Common.{
  ◌≡◌, refl, ap, ◌∙◌, ◌⊎◌, inl, inr, List, [], ◌∷◌, ◌++◌, true, String, str_eq, eq_iff,
  if◌then◌else◌, arith, Bool-cases,
}
use mathlib.Core.List.{reverse, reverse-cons}
use peerc.Trust.Store.{TransitionCertificate}
use peerc.Trust.Rotation.{mem, successors, predecessors}

-- A certificate moves the identity from one device id to another.
abbrev pub Rotated : List TransitionCertificate → String → String → Type 0
Rotated [] a b = ⊥
Rotated (c ∷ cs) a b = ((c.old_device_id ≡ a) × (c.new_device_id ≡ b)) ⊎ Rotated cs a b

pub data Connected (cs : List TransitionCertificate) (a : String) : String → Type 0 where
  here : Connected cs a a
  forward : {b c : String} → Connected cs a b → Rotated cs b c → Connected cs a c
  backward : {b c : String} → Connected cs a b → Rotated cs c b → Connected cs a c

abbrev pub In : String → List String → Type 0
In x ys = mem x ys ≡ true

mem-append :
    (x : String) (ys zs : List String) → mem x (ys ++ zs) ≡ (if mem x ys then true else mem x zs)
unfolding mem
mem-append x [] zs = refl
mem-append x (y ∷ ys) zs = ground (arith, mem-append x ys zs)

mem-reverse : (x : String) (ys : List String) → mem x (reverse ys) ≡ mem x ys
unfolding mem
mem-reverse x [] = refl
mem-reverse x (y ∷ ys) =
    ap (mem x) (reverse-cons y ys)
    ∙ ground (arith, mem-append x (reverse ys) (y ∷ []), mem-reverse x ys)

-- What is on the queue after a visit.
pub mem-pushed :
    (x : String) (ps ss queue : List String)
    → mem x (reverse ps ++ (reverse ss ++ queue))
      ≡ (if mem x ps then true else if mem x ss then true else mem x queue)
mem-pushed x ps ss queue = ground (
  arith,
  mem-append x (reverse ps) (reverse ss ++ queue),
  mem-append x (reverse ss) queue,
  mem-reverse x ps,
  mem-reverse x ss,
)

pub successors-Rotated :
    (cs : List TransitionCertificate) (a b : String)
    → (In b (successors cs a) → Rotated cs a b) × (Rotated cs a b → In b (successors cs a))
unfolding mem successors
successors-Rotated [] a b = (λ h. absurd (ground arith), λ h. absurd h)
successors-Rotated (c ∷ cs) a b =
    let (to, from) = successors-Rotated cs a b in
    (
      λ h. elim (Bool-cases (str_eq c.old_device_id a)) [
        | inr other ↦ inr (to (ground arith))
        | inl same ↦ elim (Bool-cases (str_eq c.new_device_id b)) [
          | inl hit ↦
              inl
                (ground (arith, eq_iff c.old_device_id a), ground (arith, eq_iff c.new_device_id b))
          | inr miss ↦ inr (to (ground arith))
        ]
      ],
      λ h. elim h [
        | inl (p, q) ↦ ground (arith, eq_iff c.old_device_id a, eq_iff c.new_device_id b)
        | inr later ↦ let rest = from later in ground arith
      ],
    )

pub predecessors-Rotated :
    (cs : List TransitionCertificate) (a b : String)
    → (In b (predecessors cs a) → Rotated cs b a) × (Rotated cs b a → In b (predecessors cs a))
unfolding mem predecessors
predecessors-Rotated [] a b = (λ h. absurd (ground arith), λ h. absurd h)
predecessors-Rotated (c ∷ cs) a b =
    let (to, from) = predecessors-Rotated cs a b in
    (
      λ h. elim (Bool-cases (str_eq c.new_device_id a)) [
        | inr other ↦ inr (to (ground arith))
        | inl same ↦ elim (Bool-cases (str_eq c.old_device_id b)) [
          | inl hit ↦
              inl
                (ground (arith, eq_iff c.old_device_id b), ground (arith, eq_iff c.new_device_id a))
          | inr miss ↦ inr (to (ground arith))
        ]
      ],
      λ h. elim h [
        | inl (p, q) ↦ ground (arith, eq_iff c.new_device_id a, eq_iff c.old_device_id b)
        | inr later ↦ let rest = from later in ground arith
      ],
    )

pub head-In : (x : String) (xs : List String) → In x (x ∷ xs)
unfolding mem
head-In x xs = ground (arith, eq_iff x x)

pub tail-In : (x y : String) (xs : List String) → In x xs → In x (y ∷ xs)
unfolding mem
tail-In x y xs h = ground arith
