-- ===== src/Base/Lists.antt =====
-- Lists measured and indexed by native numbers: C arrays.
use Prim.Native.Nat.{ℕ, zero, suc, ◌+◌, ◌-◌, ◌≤◌, ◌<◌}
use mathlib.Core.Path.{◌≡◌, refl, ap, ◌∙◌}
use mathlib.Core.List.{List, [], ◌∷◌, ◌++◌}
use mathlib.Core.Option.{Option, none, some}
use mathlib.Core.Option
use native.Mathlib.Omega.{arith}
use asn.Base.Tests.{leb, if◌then◌else◌}

module _ {ℓ} {A : Type ℓ} where
  abbrev pub length : List A → ℕ
  length [] = 0
  length (x ∷ xs) = suc (length xs)

  abbrev pub get_elem? : List A → ℕ → Option A
  get_elem? [] i = none
  get_elem? (x ∷ xs) zero = some x
  get_elem? (x ∷ xs) (suc i) = get_elem? xs i

  -- `xs[i]` changed by `f`, where `none` is an access outside the array.
  abbrev pub modify : List A → ℕ → (A → A) → Option (List A)
  modify [] i f = none
  modify (x ∷ xs) zero f = some (f x ∷ xs)
  modify (x ∷ xs) (suc i) f = Option.map (λ ys. x ∷ ys) (modify xs i f)

  -- `xs[i] = v`
  abbrev pub store : List A → ℕ → A → Option (List A)
  store xs i v = modify xs i (λ _. v)

  abbrev pub take : ℕ → List A → List A
  take zero xs = []
  take (suc n) [] = []
  take (suc n) (x ∷ xs) = x ∷ take n xs

  abbrev pub drop : ℕ → List A → List A
  drop zero xs = xs
  drop (suc n) [] = []
  drop (suc n) (x ∷ xs) = drop n xs

  -- `n` cells from the `i`th on, where `none` is a read outside the array.
  abbrev pub run_at : List A → ℕ → ℕ → Option (List A)
  run_at xs i n = if leb (i + n) (length xs) then some (take n (drop i xs)) else none

  abbrev pub All {κ} : (A → Type κ) → List A → Type κ
  All P [] = Unit {κ}
  All P (x ∷ xs) = P x × All P xs

  pub All-append {κ} : (P : A → Type κ) (xs ys : List A) → All P xs → All P ys → All P (xs ++ ys)
  All-append P [] ys h k = k
  All-append P (x ∷ xs) ys (p, h) k = (p, All-append P xs ys h k)

  pub All-split {κ} : (P : A → Type κ) (xs ys : List A) → All P (xs ++ ys) → All P xs × All P ys
  All-split P [] ys h = (tt, h)
  All-split P (x ∷ xs) ys (p, h) = let (front, back) = All-split P xs ys h in ((p, front), back)

  pub length-append : (xs ys : List A) → length (xs ++ ys) ≡ length xs + length ys
  length-append [] ys = omega arith
  length-append (x ∷ xs) ys = omega (arith, length-append xs ys)

  pub length-take : (n : ℕ) (xs : List A) → n ≤ length xs → length (take n xs) ≡ n
  length-take zero xs h = refl
  length-take (suc n) [] h = absurd (omega arith)
  length-take (suc n) (x ∷ xs) h = ap suc (length-take n xs (omega arith))

  pub length-take-le : (n : ℕ) (xs : List A) → length (take n xs) ≤ n
  length-take-le zero xs = omega arith
  length-take-le (suc n) [] = omega arith
  length-take-le (suc n) (x ∷ xs) = omega (arith, length-take-le n xs)

  pub length-drop : (n : ℕ) (xs : List A) → length (drop n xs) ≡ length xs - n
  length-drop zero xs = omega arith
  length-drop (suc n) [] = omega arith
  length-drop (suc n) (x ∷ xs) = omega (arith, length-drop n xs)

  pub take-all : (n : ℕ) (xs : List A) → length xs ≤ n → take n xs ≡ xs
  take-all zero [] h = refl
  take-all (suc n) [] h = refl
  take-all zero (x ∷ xs) h = absurd (omega arith)
  take-all (suc n) (x ∷ xs) h = ap (λ l. x ∷ l) (take-all n xs (omega arith))

  pub take-append : (xs ys : List A) → take (length xs) (xs ++ ys) ≡ xs
  take-append [] ys = refl
  take-append (x ∷ xs) ys = ap (λ t. x ∷ t) (take-append xs ys)

  pub drop-append : (xs ys : List A) → drop (length xs) (xs ++ ys) ≡ ys
  drop-append [] ys = refl
  drop-append (x ∷ xs) ys = drop-append xs ys

  pub take-drop : (n : ℕ) (xs : List A) → take n xs ++ drop n xs ≡ xs
  take-drop zero xs = refl
  take-drop (suc n) [] = refl
  take-drop (suc n) (x ∷ xs) = ap (λ t. x ∷ t) (take-drop n xs)

  -- Behind the front of a list, and behind the end of its first part.
  pub drop-append_front :
      (xs ys : List A) (i : ℕ) → i ≤ length xs → drop i (xs ++ ys) ≡ drop i xs ++ ys
  drop-append_front xs ys zero h = refl
  drop-append_front [] ys (suc i) h = absurd (omega arith)
  drop-append_front (x ∷ xs) ys (suc i) h = drop-append_front xs ys i (omega arith)

  pub drop-append_back :
      (xs ys : List A) (i : ℕ) → length xs ≤ i → drop i (xs ++ ys) ≡ drop (i - length xs) ys
  drop-append_back [] ys i h = ap (λ j. drop j ys) (omega arith)
  drop-append_back (x ∷ xs) ys zero h = absurd (omega arith)
  drop-append_back (x ∷ xs) ys (suc i) h =
      drop-append_back xs ys i (omega arith) ∙ ap (λ j. drop j ys) (omega arith)

  pub drop-nil : (n : ℕ) → drop n [] ≡ []
  drop-nil zero = refl
  drop-nil (suc n) = refl

  pub drop-add : (n m k : ℕ) (xs : List A) → k ≡ n + m → drop m (drop n xs) ≡ drop k xs
  drop-add zero m k xs h = ap (λ j. drop j xs) (omega arith)
  drop-add (suc n) m zero xs h = absurd (omega arith)
  drop-add (suc n) m (suc k) [] h = drop-nil m
  drop-add (suc n) m (suc k) (x ∷ xs) h = drop-add n m k xs (omega arith)

  pub get_elem?-lt : (xs : List A) (i : ℕ) → i < length xs → (x : A) × (get_elem? xs i ≡ some x)
  get_elem?-lt [] i h = absurd (omega arith)
  get_elem?-lt (x ∷ xs) zero h = (x, refl)
  get_elem?-lt (x ∷ xs) (suc i) h = get_elem?-lt xs i (omega arith)

  pub get_elem?-drop :
      (xs : List A) (i : ℕ) {x : A} {ys : List A} → drop i xs ≡ x ∷ ys → get_elem? xs i ≡ some x
  get_elem?-drop [] zero h = cc
  get_elem?-drop [] (suc i) h = cc
  get_elem?-drop (x ∷ xs) zero h = cc
  get_elem?-drop (x ∷ xs) (suc i) h = get_elem?-drop xs i h

  pub drop-suc :
      (xs : List A) (i : ℕ) {x : A} {ys : List A} → drop i xs ≡ x ∷ ys → drop (suc i) xs ≡ ys
  drop-suc [] zero h = cc
  drop-suc [] (suc i) h = cc
  drop-suc (x ∷ xs) zero h = cc
  drop-suc (x ∷ xs) (suc i) h = drop-suc xs i h

  pub modify-lt :
      (xs : List A) (i : ℕ) (f : A → A)
      → i < length xs
      → (ys : List A) × (modify xs i f ≡ some ys) × (length ys ≡ length xs)
  modify-lt [] i f h = absurd (omega arith)
  modify-lt (x ∷ xs) zero f h = (f x ∷ xs, refl, refl)
  modify-lt (x ∷ xs) (suc i) f h =
      let (ys, e, l) = modify-lt xs i f (omega arith) in
      (x ∷ ys, ap (Option.map (λ zs. x ∷ zs)) e, ap suc l)
