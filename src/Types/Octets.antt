-- ===== src/Types/Octets.antt =====
-- asn1_types.c: the bytes of an integer, as a number in base 256.
use asn.Base.{
  ℕ, zero, suc, ◌+◌, ◌-◌, ◌*◌, ◌/◌, ◌%◌, ◌^◌, ◌≤◌, ◌<◌, ◌≡◌, refl, ap, sym, ◌∙◌, List, ◌∷◌, ◌++◌,
  length, arith, some, drop, drop-suc, get_elem?-drop,
}
use asn.Base.Bits.{bit_or-add}
use asn.Parser.Header.{push_octet}
use asn.Parser.Node.{Node}
use asn.Types.Access.{ok, byte_at}
use asn.Types.Integer.{octet, octets_from, integer_loop}
use native.Mathlib.Nat.{pow-suc, div-div-eq-div-mul, div-le_self}

pub length-octets_from : (k value : ℕ) → length (octets_from k value) ≡ suc k
unfolding octets_from
length-octets_from zero value = refl
length-octets_from (suc k) value = ap suc (length-octets_from k value)

-- The byte positions of a 64-bit word, one by one.
pub up_to_7 :
    (P : ℕ → Type 0) → P 0 → P 1 → P 2 → P 3 → P 4 → P 5 → P 6 → P 7 → (m : ℕ) → m ≤ 7 → P m
up_to_7 P p0 p1 p2 p3 p4 p5 p6 p7 zero l = p0
up_to_7 P p0 p1 p2 p3 p4 p5 p6 p7 (suc zero) l = p1
up_to_7 P p0 p1 p2 p3 p4 p5 p6 p7 (suc (suc zero)) l = p2
up_to_7 P p0 p1 p2 p3 p4 p5 p6 p7 (suc (suc (suc zero))) l = p3
up_to_7 P p0 p1 p2 p3 p4 p5 p6 p7 (suc (suc (suc (suc zero)))) l = p4
up_to_7 P p0 p1 p2 p3 p4 p5 p6 p7 (suc (suc (suc (suc (suc zero))))) l = p5
up_to_7 P p0 p1 p2 p3 p4 p5 p6 p7 (suc (suc (suc (suc (suc (suc zero)))))) l = p6
up_to_7 P p0 p1 p2 p3 p4 p5 p6 p7 (suc (suc (suc (suc (suc (suc (suc zero))))))) l = p7
up_to_7 P p0 p1 p2 p3 p4 p5 p6 p7 (suc (suc (suc (suc (suc (suc (suc (suc m)))))))) l =
    absurd (omega arith)

pub octet-lt : (value k : ℕ) → octet value k < 256
octet-lt value k = omega arith

pub div-suc : (value k : ℕ) → value / 256 ^ suc k ≡ value / 256 ^ k / 256
div-suc value k = ap (λ d. value / d) (pow-suc 256 k) ∙ sym (div-div-eq-div-mul value (256 ^ k) 256)

-- A left shift by eight bits drops the top eight.
pub push_octet-eq :
    (value byte : ℕ) → byte < 256 → push_octet value byte ≡ value % 2 ^ 56 * 256 + byte
push_octet-eq value byte h =
    let shifted : value * 2 ^ 8 % 2 ^ 64 ≡ value % 2 ^ 56 * 2 ^ 8 = omega arith in
    rw shifted (bit_or-add 8 (value % 2 ^ 56) byte h)

-- A byte of the data of a node.
pub byte_at-drop :
    (node : Node) (p : List ℕ) (i : ℕ) {x : ℕ} {ys : List ℕ}
    → node.data_bytes ≡ some p
    → drop i p ≡ x ∷ ys
    → byte_at node i ≡ some x
unfolding byte_at
byte_at-drop node p i bytes h = rw bytes (get_elem?-drop p i h)

-- The loop where `state m` is the result before the last `m` bytes.
pub integer_loop-run :
    (node : Node) (p : List ℕ) (value : ℕ) (state : ℕ → ℕ) (k i : ℕ) (rest : List ℕ)
    → node.data_bytes ≡ some p
    → ((m : ℕ) → m ≤ k → push_octet (state (suc m)) (octet value m) ≡ state m)
    → drop i p ≡ octets_from k value ++ rest
    → integer_loop node (suc k) i (state (suc k)) ≡ ok (state 0)
unfolding integer_loop octets_from
integer_loop-run node p value state zero i rest bytes step h =
    rw (byte_at-drop node p i bytes h, step 0 (omega arith))
integer_loop-run node p value state (suc k) i rest bytes step h =
    let next : drop (i + 1) p ≡ octets_from k value ++ rest =
      ap (λ j. drop j p) {y = suc i} (omega arith) ∙ drop-suc p i h in
    rw (byte_at-drop node p i bytes h, step (suc k) (omega arith))
      (integer_loop-run node p value state k (i + 1) rest bytes (λ m l. step m (omega arith)) next)

-- The result so far of a number that is not negative, and of a negative one.
abbrev pub above : ℕ → ℕ → ℕ
above value m = value / 256 ^ m

abbrev pub above_negative : ℕ → ℕ → ℕ
above_negative value m = value / 256 ^ m + (2 ^ 64 - 256 ^ (8 - m))

pub above-step :
    (value m : ℕ)
    → value < 2 ^ 64
    → push_octet (above value (suc m)) (octet value m) ≡ above value m
above-step value m small =
    rw (push_octet-eq (above value (suc m)) (octet value m) (octet-lt value m))
      (omega (arith, div-suc value m, le-above))
  where
    le-above : value / 256 ^ m ≤ value
    le-above = div-le_self value (256 ^ m)

pub above_negative-step :
    (value m : ℕ)
    → value < 2 ^ 64
    → m ≤ 7
    → push_octet (above_negative value (suc m)) (octet value m) ≡ above_negative value m
above_negative-step value m small few =
    rw (push_octet-eq (above_negative value (suc m)) (octet value m) (octet-lt value m))
      (digits m few)
  where
    digits :
        (m : ℕ)
        → m ≤ 7
        → above_negative value (suc m) % 2 ^ 56 * 256 + octet value m ≡ above_negative value m
    digits =
        up_to_7
          (λ m.
            above_negative value (suc m) % 2 ^ 56 * 256 + octet value m ≡ above_negative value m)
          (omega arith) (omega arith) (omega arith) (omega arith) (omega arith) (omega arith)
          (omega arith) (omega arith)
