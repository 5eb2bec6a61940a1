-- ===== src/Common/Lists.antt =====
-- Lists measured and indexed by native numbers, under the library's names, and membership tests.
use Prim.Native.Nat.{ℕ, zero, suc, ◌+◌, ◌-◌, min}
use mathlib.Core.Path.{◌≡◌, refl, ap, sym, ◌∙◌}
use native.Mathlib.Nat.{suc-add}
use mathlib.Core.Bool.{Bool, true, false, ◌||◌}
use mathlib.Core.Option.{Option, none, some}
use mathlib.Core.List.{List, [], ◌∷◌, ◌++◌}
use mathlib.Core.Logic.{ite}
use native.Mathlib.Omega.{arith}

module _ {ℓ} {A : Type ℓ} where
  abbrev pub length : List A → ℕ
  length [] = 0
  length (x ∷ xs) = suc (length xs)

  abbrev pub take : ℕ → List A → List A
  take zero xs = []
  take (suc n) [] = []
  take (suc n) (x ∷ xs) = x ∷ take n xs

  abbrev pub drop : ℕ → List A → List A
  drop zero xs = xs
  drop (suc n) [] = []
  drop (suc n) (x ∷ xs) = drop n xs

  abbrev pub replicate : ℕ → A → List A
  replicate zero a = []
  replicate (suc n) a = a ∷ replicate n a

  -- Membership in a set that is written as a list.
  abbrev pub contains : Discrete A → A → List A → Bool
  contains dec a [] = false
  contains dec a (x ∷ xs) = ite (dec a x) true (contains dec a xs)

  -- A predicate of every element.
  abbrev pub All {κ} : (A → Type κ) → List A → Type κ
  All P [] = Unit
  All P (x ∷ xs) = P x × All P xs

  -- A predicate of some element.
  abbrev pub any : (A → Bool) → List A → Bool
  any p [] = false
  any p (x ∷ xs) = p x || any p xs

module _ {ℓ} {A : Type ℓ} where
  pub length-append : (xs ys : List A) → length (xs ++ ys) ≡ length xs + length ys
  length-append [] ys = omega arith
  length-append (x ∷ xs) ys = omega (arith, length-append xs ys)

  pub length-take : (n : ℕ) (xs : List A) → length (take n xs) ≡ min n (length xs)
  length-take zero xs = omega arith
  length-take (suc n) [] = omega arith
  length-take (suc n) (x ∷ xs) = omega (arith, length-take n xs)

  pub length-drop : (n : ℕ) (xs : List A) → length (drop n xs) ≡ length xs - n
  length-drop zero xs = omega arith
  length-drop (suc n) [] = omega arith
  length-drop (suc n) (x ∷ xs) = omega (arith, length-drop n xs)

  pub take-append-drop : (n : ℕ) (xs : List A) → take n xs ++ drop n xs ≡ xs
  take-append-drop zero xs = refl
  take-append-drop (suc n) [] = refl
  take-append-drop (suc n) (x ∷ xs) = rw (take-append-drop n xs)

  pub take-append : (xs ys : List A) → take (length xs) (xs ++ ys) ≡ xs
  take-append [] ys = refl
  take-append (x ∷ xs) ys = rw (take-append xs ys)

  pub drop-append : (xs ys : List A) → drop (length xs) (xs ++ ys) ≡ ys
  drop-append [] ys = refl
  drop-append (x ∷ xs) ys = drop-append xs ys

  pub take-append_past :
      (xs ys : List A) (n : ℕ) → take (length xs + n) (xs ++ ys) ≡ xs ++ take n ys
  take-append_past [] ys n = ap (λ k. take k ys) (omega arith)
  take-append_past (x ∷ xs) ys n =
      ap (λ k. take k (x ∷ xs ++ ys)) (suc-add (length xs) n)
      ∙ ap (λ l. x ∷ l) (take-append_past xs ys n)

module _ {ℓ κ} {A : Type ℓ} (P : A → Type κ) where
  pub All-append :
      (xs ys : List A)
      → (All P (xs ++ ys) → All P xs × All P ys) × (All P xs → All P ys → All P (xs ++ ys))
  All-append [] ys = (λ h. (tt, h), λ _ h. h)
  All-append (x ∷ xs) ys =
      let (split, join) = All-append xs ys in
      (λ h. let (hx, hy) = split h.1 in ((h.0, hx), hy), λ h k. (h.0, join h.1 k))

module _ {ℓ} {A : Type ℓ} where
  pub take-append_at : (n : ℕ) (xs ys : List A) → length xs ≡ n → take n (xs ++ ys) ≡ xs
  take-append_at n xs ys h = ap (λ k. take k (xs ++ ys)) (sym h) ∙ take-append xs ys

  pub drop-append_past :
      (n m : ℕ) (xs ys : List A) → length xs ≡ n → drop (n + m) (xs ++ ys) ≡ drop m ys
  drop-append_past zero m [] ys h = ap (λ k. drop k ys) (omega arith)
  drop-append_past zero m (x ∷ xs) ys h = absurd (omega arith)
  drop-append_past (suc n) m [] ys h = absurd (omega arith)
  drop-append_past (suc n) m (x ∷ xs) ys h =
      ap (λ k. drop k (x ∷ xs ++ ys)) (suc-add n m) ∙ drop-append_past n m xs ys (omega arith)

  pub drop-nil : (n : ℕ) → drop {A = A} n [] ≡ []
  drop-nil zero = refl
  drop-nil (suc n) = refl

  pub drop-drop : (n m : ℕ) (xs : List A) → drop m (drop n xs) ≡ drop (n + m) xs
  drop-drop zero m xs = ap (λ k. drop k xs) (omega arith)
  drop-drop (suc n) m [] = drop-nil m ∙ sym (drop-nil (suc n + m))
  drop-drop (suc n) m (x ∷ xs) = drop-drop n m xs ∙ sym (ap (λ k. drop k (x ∷ xs)) (suc-add n m))

module _ {ℓ} {A : Type ℓ} where
  abbrev pub get_elem? : List A → ℕ → Option A
  get_elem? [] i = none
  get_elem? (x ∷ xs) zero = some x
  get_elem? (x ∷ xs) (suc i) = get_elem? xs i

  -- The numbers from `a` on, as many as a list has elements.
  abbrev pub numbered : ℕ → List A → List ℕ
  numbered a [] = []
  numbered a (x ∷ xs) = a ∷ numbered (a + 1) xs

  pub take-drop-suc :
      (k n : ℕ) (xs : List A) {x : A}
      → get_elem? xs n ≡ some x
      → take (suc k) (drop n xs) ≡ x ∷ take k (drop (suc n) xs)
  take-drop-suc k n [] h = cc
  take-drop-suc k zero (y ∷ ys) h = cc h
  take-drop-suc k (suc n) (y ∷ ys) h = take-drop-suc k n ys h
