-- ===== src/Encoding/Octets.antt =====
-- The octet and group counts of the encodings, in plain arithmetic.
use asn.Base.{
  ℕ, zero, suc, ◌+◌, ◌*◌, ◌/◌, ◌^◌, ◌≤◌, ◌<◌, ◌≡◌, refl, List, [], ◌∷◌, length, arith, ltb, leb,
  Bool-cases, inl, inr, bit_and, bit_or, lt→ltb, Bool, if◌then◌else◌,
}
use asn.Identifier.{Identifier}
use asn.Encoding.{
  count_octets, needed_loop, octets_needed, fill_octets, encode_length, length_bytes_needed,
  encode_identifier, identifier_bytes_needed, base128_octets, fill_groups, count_groups,
}
use native.Mathlib.Nat.{pow-suc, one-le-pow}
use native.Mathlib.Numerals.{add-one}

pub pow-next : (a k : ℕ) → a ^ (k + 1) ≡ a ^ k * a
pow-next a k = rw add-one (pow-suc a k)

-- `count_octets` gives the number of digits of `n` in base 256.
pub count_octets-le : (rounds n : ℕ) → count_octets rounds n ≤ rounds
unfolding count_octets
count_octets-le zero n = omega arith
count_octets-le (suc r) n = ground (arith, count_octets-le r (n / 2 ^ 8))

pub count_octets-pos : (rounds n : ℕ) → 0 < n → n < 256 ^ rounds → 0 < count_octets rounds n
unfolding count_octets
count_octets-pos zero n pos h = omega arith
count_octets-pos (suc r) n pos h = ground arith

pub lt-count_octets : (rounds n : ℕ) → n < 256 ^ rounds → n < 256 ^ count_octets rounds n
unfolding count_octets
lt-count_octets zero n h = h
lt-count_octets (suc r) n h =
    ground (
      arith,
      pow-suc 256 r,
      pow-next 256 (count_octets r (n / 2 ^ 8)),
      lt-count_octets r (n / 2 ^ 8),
    )

count_octets_zero : (rounds n : ℕ) → n ≡ 0 → count_octets rounds n ≡ 0
unfolding count_octets
count_octets_zero zero n h = refl
count_octets_zero (suc r) n h = ground arith

pub count_octets_least :
    (rounds n : ℕ) → 0 < n → n < 256 ^ rounds → 256 ^ count_octets rounds n ≤ 256 * n
unfolding count_octets
count_octets_least zero n pos h = omega arith
count_octets_least (suc r) n pos h = elim (Bool-cases (ltb 0 (n / 2 ^ 8))) [
  | inl more ↦ ground (
    arith,
    pow-suc 256 r,
    pow-next 256 (count_octets r (n / 2 ^ 8)),
    count_octets_least r (n / 2 ^ 8),
  )
  | inr last ↦ ground (arith, count_octets_zero r (n / 2 ^ 8))
]

-- Four octets are enough exactly for the numbers below 2 ^ 32.
pub count_octets-le_digits : (m rounds n : ℕ) → n < 256 ^ m → count_octets rounds n ≤ m
unfolding count_octets
count_octets-le_digits m zero n h = omega arith
count_octets-le_digits zero (suc r) n h = ground arith
count_octets-le_digits (suc m) (suc r) n h =
    ground (arith, pow-suc 256 m, count_octets-le_digits m r (n / 2 ^ 8))

pub lt-count_octets_digits : (m rounds n : ℕ) → 256 ^ m ≤ n → m < rounds → m < count_octets rounds n
unfolding count_octets
lt-count_octets_digits m zero n h r = absurd (omega arith)
lt-count_octets_digits zero (suc rounds) n h r = ground arith
lt-count_octets_digits (suc m) (suc rounds) n h r =
    ground (arith, pow-suc 256 m, one-le-pow m 256, lt-count_octets_digits m rounds (n / 2 ^ 8))

length-fill_octets :
    (i n : ℕ) (written : List ℕ) → length (fill_octets i n written) ≡ i + length written
unfolding fill_octets
length-fill_octets zero n written = omega arith
length-fill_octets (suc i) n written =
    omega (arith, length-fill_octets i (n / 2 ^ 8) (bit_and n 0xFF ∷ written))

-- The loop of asn1_length_bytes_needed() counts as that of asn1_encode_length() does.
needed_loop-eq : (rounds n bytes : ℕ) → needed_loop rounds n bytes ≡ bytes + count_octets rounds n
unfolding needed_loop count_octets
needed_loop-eq zero n bytes = omega arith
needed_loop-eq (suc r) n bytes = ground (arith, needed_loop-eq r (n / 2 ^ 8) (bytes + 1))

length-encode_length_octets :
    (n : ℕ) → length (encode_length n) ≡ (if leb n 0x7F then 1 else octets_needed n + 1)
unfolding encode_length
length-encode_length_octets n = elim (Bool-cases (leb n 0x7F)) [
  | inl e ↦ rw e
  | inr e ↦ rw e (omega (arith, length-fill_octets (octets_needed n) n []))
]

-- asn1_length_bytes_needed() is the number of bytes that asn1_encode_length() writes, for every length.
pub length-encode_length : (n : ℕ) → length (encode_length n) ≡ length_bytes_needed n
unfolding length_bytes_needed
length-encode_length n = rw (length-encode_length_octets n) (ground (arith, needed_loop-eq 8 n 0))

-- The encoding takes 1 to 9 bytes, the size of the callers' buffers.
pub length-encode_length_bounds :
    (n : ℕ) → (1 ≤ length (encode_length n)) × (length (encode_length n) ≤ 9)
length-encode_length_bounds n =
    rw (length-encode_length_octets n) (ground (arith, count_octets-le 8 n))

pub length-encode_length_small : (n : ℕ) → n < 2 ^ 32 → length (encode_length n) ≤ 5
length-encode_length_small n h =
    rw (length-encode_length_octets n) (ground (arith, count_octets-le_digits 4 8 n h))

pub length-encode_length_large : (n : ℕ) → 2 ^ 32 ≤ n → 5 < length (encode_length n)
length-encode_length_large n h =
    rw (length-encode_length_octets n)
      (ground (arith, lt-count_octets_digits 4 8 n h (omega arith)))

count_groups-le : (rounds tag : ℕ) → count_groups rounds tag ≤ rounds
unfolding count_groups
count_groups-le zero tag = omega arith
count_groups-le (suc r) tag = ground (arith, count_groups-le r (tag / 2 ^ 7))

length-fill_groups :
    (rounds tag : ℕ) (written : List ℕ)
    → length (fill_groups rounds tag written) ≡ count_groups rounds tag + length written
unfolding fill_groups count_groups
length-fill_groups zero tag written = omega arith
length-fill_groups (suc r) tag written = elim (Bool-cases (ltb 0 tag)) [
  | inl e ↦
      rw e (
        omega
          (arith, length-fill_groups r (tag / 2 ^ 7) (bit_or 0x80 (bit_and tag 0x7F) ∷ written)))
  | inr e ↦ rw e (omega arith)
]

-- asn1_identifier_bytes_needed() is the number of bytes that asn1_encode_identifier() writes, for
-- every tag and both forms.
pub length-encode_identifier :
    (id : Identifier) (constructed : Bool)
    → length (encode_identifier id constructed) ≡ identifier_bytes_needed id
unfolding encode_identifier identifier_bytes_needed count_groups
length-encode_identifier id constructed = elim (Bool-cases (ltb id.tag_number 0x1f)) [
  | inl e ↦ rw e
  | inr e ↦
      rw (e, lt→ltb 0 id.tag_number (ground arith))
        (omega
          (arith, length-fill_groups 4 (id.tag_number / 2 ^ 7) (bit_and id.tag_number 0x7F ∷ [])))
]

-- A number in base 128 takes 1 to 5 bytes.
pub length-base128_octets :
    (t : ℕ) → (1 ≤ length (base128_octets t)) × (length (base128_octets t) ≤ 5)
unfolding base128_octets
length-base128_octets t =
    omega
      (arith, length-fill_groups 4 (t / 2 ^ 7) (bit_and t 0x7F ∷ []), count_groups-le 4 (t / 2 ^ 7))

pub length-encode_identifier_bounds :
    (id : Identifier) (constructed : Bool) → length (encode_identifier id constructed) ≤ 6
length-encode_identifier_bounds id constructed =
    rw (length-encode_identifier id constructed)
      (unfold identifier_bytes_needed in ground (arith, count_groups-le 5 id.tag_number))
