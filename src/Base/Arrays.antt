-- ===== src/Base/Arrays.antt =====
-- Overwriting a run of cells of a C array: memcpy() and memmove().
use Prim.Native.Nat.{ℕ, zero, suc, ◌+◌, ◌≤◌, ◌<◌}
use mathlib.Core.Path.{◌≡◌, refl, ap}
use mathlib.Core.List.{List, [], ◌∷◌, ◌++◌}
use mathlib.Core.Option.{Option, none, some}
use mathlib.Core.Option
use native.Mathlib.Omega.{arith}
use asn.Base.Tests.{leb, if◌then◌else◌}
use asn.Base.Lists.{length, modify, store, take, drop}

-- Overwriting a run of cells: what memcpy() into an array leaves, as far as the array goes.
module _ {ℓ} {A : Type ℓ} where
  abbrev pub overwrite : List A → List A → List A
  overwrite xs [] = xs
  overwrite [] (y ∷ ys) = []
  overwrite (x ∷ xs) (y ∷ ys) = y ∷ overwrite xs ys

  abbrev pub splice : List A → ℕ → List A → List A
  splice xs zero ys = overwrite xs ys
  splice [] (suc i) ys = []
  splice (x ∷ xs) (suc i) ys = x ∷ splice xs i ys

  -- memcpy() of `ys` to the cells from the `i`th on, where `none` is a write outside the array.
  abbrev pub copy_to : List A → ℕ → List A → Option (List A)
  copy_to xs i ys = if leb (i + length ys) (length xs) then some (splice xs i ys) else none

module _ {ℓ} {A : Type ℓ} where
  overwrite-nil : (ys : List A) → overwrite [] ys ≡ []
  overwrite-nil [] = refl
  overwrite-nil (y ∷ ys) = refl

  splice-nil : (i : ℕ) (ys : List A) → splice [] i ys ≡ []
  splice-nil zero ys = overwrite-nil ys
  splice-nil (suc i) ys = refl

  overwrite-append :
      (xs ys zs : List A) (j : ℕ)
      → j ≡ length ys
      → splice (overwrite xs ys) j zs ≡ overwrite xs (ys ++ zs)
  overwrite-append xs [] zs zero e = refl
  overwrite-append xs [] zs (suc j) e = absurd (omega arith)
  overwrite-append xs (y ∷ ys) zs zero e = absurd (omega arith)
  overwrite-append [] (y ∷ ys) zs (suc j) e = refl
  overwrite-append (x ∷ xs) (y ∷ ys) zs (suc j) e =
      ap (λ l. y ∷ l) (overwrite-append xs ys zs j (omega arith))

  pub splice_empty : (xs : List A) (i : ℕ) → splice xs i [] ≡ xs
  splice_empty xs zero = refl
  splice_empty [] (suc i) = refl
  splice_empty (x ∷ xs) (suc i) = ap (λ l. x ∷ l) (splice_empty xs i)

  pub splice-splice :
      (xs : List A) (i : ℕ) (ys zs : List A) (j : ℕ)
      → j ≡ i + length ys
      → splice (splice xs i ys) j zs ≡ splice xs i (ys ++ zs)
  splice-splice xs zero ys zs j e = overwrite-append xs ys zs j (omega arith)
  splice-splice [] (suc i) ys zs j e = splice-nil j zs
  splice-splice (x ∷ xs) (suc i) ys zs zero e = absurd (omega arith)
  splice-splice (x ∷ xs) (suc i) ys zs (suc j) e =
      ap (λ l. x ∷ l) (splice-splice xs i ys zs j (omega arith))

  pub store-splice :
      (xs : List A) (i : ℕ) (v : A) → i < length xs → store xs i v ≡ some (splice xs i (v ∷ []))
  store-splice [] i v h = absurd (omega arith)
  store-splice (x ∷ xs) zero v h = refl
  store-splice (x ∷ xs) (suc i) v h =
      ap (Option.map (λ l. x ∷ l)) (store-splice xs i v (omega arith))

  pub modify-splice :
      (xs : List A) (i : ℕ) (v : A) (ys : List A) (f : A → A)
      → i < length xs
      → modify (splice xs i (v ∷ ys)) i f ≡ some (splice xs i (f v ∷ ys))
  modify-splice [] i v ys f h = absurd (omega arith)
  modify-splice (x ∷ xs) zero v ys f h = refl
  modify-splice (x ∷ xs) (suc i) v ys f h =
      ap (Option.map (λ l. x ∷ l)) (modify-splice xs i v ys f (omega arith))

  length-overwrite : (xs ys : List A) → length (overwrite xs ys) ≡ length xs
  length-overwrite xs [] = refl
  length-overwrite [] (y ∷ ys) = refl
  length-overwrite (x ∷ xs) (y ∷ ys) = ap suc (length-overwrite xs ys)

  pub length-splice : (xs : List A) (i : ℕ) (ys : List A) → length (splice xs i ys) ≡ length xs
  length-splice xs zero ys = length-overwrite xs ys
  length-splice [] (suc i) ys = refl
  length-splice (x ∷ xs) (suc i) ys = ap suc (length-splice xs i ys)

  take-overwrite :
      (xs ys : List A) (j : ℕ) → j ≡ length ys → j ≤ length xs → take j (overwrite xs ys) ≡ ys
  take-overwrite xs [] zero e h = refl
  take-overwrite xs [] (suc j) e h = absurd (omega arith)
  take-overwrite xs (y ∷ ys) zero e h = absurd (omega arith)
  take-overwrite [] (y ∷ ys) (suc j) e h = absurd (omega arith)
  take-overwrite (x ∷ xs) (y ∷ ys) (suc j) e h =
      ap (λ l. y ∷ l) (take-overwrite xs ys j (omega arith) (omega arith))

  pub take-splice :
      (xs : List A) (i : ℕ) (ys : List A) (j : ℕ)
      → j ≡ i + length ys
      → j ≤ length xs
      → take j (splice xs i ys) ≡ take i xs ++ ys
  take-splice xs zero ys j e h = take-overwrite xs ys j (omega arith) h
  take-splice [] (suc i) ys j e h = absurd (omega arith)
  take-splice (x ∷ xs) (suc i) ys zero e h = absurd (omega arith)
  take-splice (x ∷ xs) (suc i) ys (suc j) e h =
      ap (λ l. x ∷ l) (take-splice xs i ys j (omega arith) (omega arith))

  overwrite-overwrite :
      (xs ys zs : List A) (j : ℕ)
      → j ≡ length ys
      → overwrite (splice xs j zs) ys ≡ overwrite xs (ys ++ zs)
  overwrite-overwrite xs [] zs zero e = refl
  overwrite-overwrite xs [] zs (suc j) e = absurd (omega arith)
  overwrite-overwrite xs (y ∷ ys) zs zero e = absurd (omega arith)
  overwrite-overwrite [] (y ∷ ys) zs (suc j) e = refl
  overwrite-overwrite (x ∷ xs) (y ∷ ys) zs (suc j) e =
      ap (λ l. y ∷ l) (overwrite-overwrite xs ys zs j (omega arith))

  -- Two writes side by side, the second one first.
  pub splice-splice_before :
      (xs : List A) (i : ℕ) (ys zs : List A) (j : ℕ)
      → j ≡ i + length ys
      → splice (splice xs j zs) i ys ≡ splice xs i (ys ++ zs)
  splice-splice_before xs zero ys zs j e = overwrite-overwrite xs ys zs j (omega arith)
  splice-splice_before [] (suc i) ys zs j e = ap (λ l. splice l (suc i) ys) (splice-nil j zs)
  splice-splice_before (x ∷ xs) (suc i) ys zs zero e = absurd (omega arith)
  splice-splice_before (x ∷ xs) (suc i) ys zs (suc j) e =
      ap (λ l. x ∷ l) (splice-splice_before xs i ys zs j (omega arith))

-- What the first cells of an array say of its parts.
module _ {ℓ} {A : Type ℓ} where
  pub take-front :
      (xs : List A) (n : ℕ) (front back : List A) (i : ℕ)
      → take n xs ≡ front ++ back
      → i ≡ length front
      → take i xs ≡ front
  take-front xs n [] back zero h e = refl
  take-front xs n [] back (suc i) h e = absurd (omega arith)
  take-front xs n (f ∷ front) back zero h e = absurd (omega arith)
  take-front xs zero (f ∷ front) back (suc i) h e = cc
  take-front [] (suc n) (f ∷ front) back (suc i) h e = cc
  take-front (x ∷ xs) (suc n) (f ∷ front) back (suc i) h e =
      let head : x ≡ f = cc in
      let tail : take n xs ≡ front ++ back = cc in
      rw (head, take-front xs n front back i tail (omega arith))

  overwrite_same : (xs : List A) (n : ℕ) (ys : List A) → take n xs ≡ ys → overwrite xs ys ≡ xs
  overwrite_same xs n [] h = refl
  overwrite_same [] n (y ∷ ys) h = refl
  overwrite_same (x ∷ xs) zero (y ∷ ys) h = cc
  overwrite_same (x ∷ xs) (suc n) (y ∷ ys) h =
      let head : x ≡ y = cc in
      let tail : take n xs ≡ ys = cc in rw (head, overwrite_same xs n ys tail)

  -- Writing what is there already changes nothing.
  pub splice_same :
      (xs : List A) (n : ℕ) (front ys : List A) (i : ℕ)
      → take n xs ≡ front ++ ys
      → i ≡ length front
      → splice xs i ys ≡ xs
  splice_same xs n [] ys zero h e = overwrite_same xs n ys h
  splice_same xs n [] ys (suc i) h e = absurd (omega arith)
  splice_same xs n (f ∷ front) ys zero h e = absurd (omega arith)
  splice_same [] n (f ∷ front) ys (suc i) h e = refl
  splice_same (x ∷ xs) zero (f ∷ front) ys (suc i) h e = cc
  splice_same (x ∷ xs) (suc n) (f ∷ front) ys (suc i) h e =
      let tail : take n xs ≡ front ++ ys = cc in
      ap (λ l. x ∷ l) (splice_same xs n front ys i tail (omega arith))

  pub take-drop_run :
      (xs : List A) (n : ℕ) (front ys : List A) (i k : ℕ)
      → take n xs ≡ front ++ ys
      → i ≡ length front
      → n ≡ i + k
      → take k (drop i xs) ≡ ys
  take-drop_run xs n [] ys zero k h e s = let same : n ≡ k = omega arith in rw same at h
  take-drop_run xs n [] ys (suc i) k h e s = absurd (omega arith)
  take-drop_run xs n (f ∷ front) ys zero k h e s = absurd (omega arith)
  take-drop_run [] zero (f ∷ front) ys (suc i) k h e s = cc
  take-drop_run [] (suc n) (f ∷ front) ys (suc i) k h e s = cc
  take-drop_run (x ∷ xs) zero (f ∷ front) ys (suc i) k h e s = cc
  take-drop_run (x ∷ xs) (suc n) (f ∷ front) ys (suc i) k h e s =
      let tail : take n xs ≡ front ++ ys = cc in
      take-drop_run xs n front ys i k tail (omega arith) (omega arith)

  -- A run from the first cell on, and the cells behind it.
  pub splice-append_drop :
      (xs ys : List A) → length ys ≤ length xs → splice xs 0 ys ≡ ys ++ drop (length ys) xs
  splice-append_drop xs [] h = refl
  splice-append_drop [] (y ∷ ys) h = absurd (omega arith)
  splice-append_drop (x ∷ xs) (y ∷ ys) h = ap (λ l. y ∷ l) (splice-append_drop xs ys (omega arith))
