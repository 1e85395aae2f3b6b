-- ===== src/Types/Oid/Equality.antt =====
-- asn1_types.h: asn1_oid_equal().
use asn.Base.{arith, ℕ, ◌≡◌, refl, true, List, [], ◌∷◌, eq→==}
use asn.Types.Oid.{oid_equal}

eq-oid_equal : (x y : List ℕ) → oid_equal x y ≡ true → x ≡ y
unfolding oid_equal
eq-oid_equal [] [] h = refl
eq-oid_equal [] (b ∷ y) h = ground arith
eq-oid_equal (a ∷ x) [] h = ground arith
eq-oid_equal (a ∷ x) (b ∷ y) h =
    let first : a ≡ b = ground arith in
    let rest = eq-oid_equal x y (ground arith) in rw (first, rest)

oid_equal_refl : (x : List ℕ) → oid_equal x x ≡ true
unfolding oid_equal
oid_equal_refl [] = refl
oid_equal_refl (a ∷ x) = rw (eq→== a a refl, oid_equal_refl x)

-- asn1_oid_equal() holds of two identifiers exactly where they have the same components in the same
-- order.
pub oid_equal-eq : (x y : List ℕ) → (oid_equal x y ≡ true → x ≡ y) × (x ≡ y → oid_equal x y ≡ true)
oid_equal-eq x y = (eq-oid_equal x y, λ e. rw (← e) (oid_equal_refl x))
