-- ===== src/Base/Results.antt =====
-- What a call of the library may do to the state `S` that it works on.
use mathlib.Core.Path.{◌≡◌, refl}
use mathlib.Core.Logic.{◌≢◌}
use mathlib.Core.Bool.{Bool, true, false}
use asn.Base.Tests.{if◌then◌else◌}
use mathlib.Core.Option.{Option, none, some}

-- `done` is ASN1_OK with the values written through the output pointers, `failed` an error
-- return. `fault` is an access outside an array, which C leaves undefined, and `out_of_fuel` has
-- no counterpart in the program: the model's bound on a loop was too small.
pub data Outcome (E S A : Type 0) : Type 0 where
  done : A → S → Outcome E S A
  failed : E → S → Outcome E S A
  fault : Outcome E S A
  out_of_fuel : Outcome E S A

module _ {E S A B : Type 0} where
  abbrev pub bind : Outcome E S A → (A → S → Outcome E S B) → Outcome E S B
  bind (done a s) f = f a s
  bind (failed e s) f = failed e s
  bind fault f = fault
  bind out_of_fuel f = out_of_fuel

  infixl 5 ◌>>=◌ ◌>>◌
  abbrev pub ◌>>=◌ : (S → Outcome E S A) → (A → S → Outcome E S B) → S → Outcome E S B
  ◌>>=◌ m f s = bind (m s) f

  abbrev pub ◌>>◌ : (S → Outcome E S A) → (S → Outcome E S B) → S → Outcome E S B
  ◌>>◌ m k s = bind (m s) (λ _. k)

module _ {E S A : Type 0} where
  abbrev pub return : A → S → Outcome E S A
  return a s = done a s

  -- A memory access: `none` is outside the array.
  abbrev pub access : Option A → S → Outcome E S A
  access none s = fault
  access (some a) s = done a s

module _ {E S A B : Type 0} where
  -- Inversion of a successful call, for proofs where the parts stay shut.
  pub bind-eq-done :
      (m : Outcome E S A) (f : A → S → Outcome E S B) {b : B} {u : S}
      → bind m f ≡ done b u
      → (a : A) × (t : S) × (m ≡ done a t) × (f a t ≡ done b u)
  bind-eq-done (done a t) f h = (a, t, refl, h)
  bind-eq-done (failed e t) f h = cc
  bind-eq-done fault f h = cc
  bind-eq-done out_of_fuel f h = cc

-- The call returns: `P` holds of what it returns and leaves, or `Q` of what it leaves where it
-- returns an error.
pub data Returns {E S A : Type 0} (P : A → S → Type 0) (Q : S → Type 0)
    : Outcome E S A → Type 0 where
  returned : {a : A} {s : S} → P a s → Returns P Q (done a s)
  raised : {e : E} {s : S} → Q s → Returns P Q (failed e s)

module _ {E S A : Type 0} {P : A → S → Type 0} {Q : S → Type 0} where
  pub Returns-mono :
      {P' : A → S → Type 0} {r : Outcome E S A}
      → ((a : A) (s : S) → P a s → P' a s)
      → Returns P Q r
      → Returns P' Q r
  Returns-mono k (returned {a} {s} h) = returned (k a s h)
  Returns-mono k (raised h) = raised h

  pub Returns-bind :
      {B : Type 0} {P' : B → S → Type 0} {r : Outcome E S A} {f : A → S → Outcome E S B}
      → Returns P Q r
      → ((a : A) (s : S) → P a s → Returns P' Q (f a s))
      → Returns P' Q (bind r f)
  Returns-bind (returned {a} {s} h) k = k a s h
  Returns-bind (raised h) k = raised h

  pub Returns-if :
      (b : Bool) {x y : Outcome E S A}
      → (b ≡ true → Returns P Q x)
      → (b ≡ false → Returns P Q y)
      → Returns P Q (if b then x else y)
  Returns-if true hx hy = hx refl
  Returns-if false hx hy = hy refl

  -- The same where the branches are operations.
  pub Returns-if_op :
      (b : Bool) (m n : S → Outcome E S A) (s : S)
      → (b ≡ true → Returns P Q (m s))
      → (b ≡ false → Returns P Q (n s))
      → Returns P Q ((if b then m else n) s)
  Returns-if_op true m n s hm hn = hm refl
  Returns-if_op false m n s hm hn = hn refl

  pub Returns-ne-out_of_fuel : {r : Outcome E S A} → Returns P Q r → r ≢ out_of_fuel
  Returns-ne-out_of_fuel (returned h) = cc
  Returns-ne-out_of_fuel (raised h) = cc

  pub Returns-ne-fault : {r : Outcome E S A} → Returns P Q r → r ≢ fault
  Returns-ne-fault (returned h) = cc
  Returns-ne-fault (raised h) = cc

module _ {E S A : Type 0} {P : A → S → Type 0} {Q : S → Type 0} where
  -- What holds of a call that has returned.
  pub of_returned : {a : A} {s : S} → Returns {E = E} P Q (done a s) → P a s
  of_returned (returned p) = p

module _ {E S A : Type 0} {P P' : A → S → Type 0} {Q Q' : S → Type 0} where
  -- With more that holds of what it returns, under a condition.
  pub Returns-with :
      {H : Type 0} {r : Outcome E S A}
      → Returns P Q r
      → (H → Returns P' Q' r)
      → Returns (λ a s. P a s × (H → P' a s)) Q r
  Returns-with (returned p) k = returned (p, λ h. of_returned (k h))
  Returns-with (raised q) k = raised q
