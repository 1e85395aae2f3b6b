-- ===== src/Types/BitString/Bits.antt =====
-- asn1_types.h, BIT STRING: asn1_bit_string_get() and asn1_bit_string_bit_count() on the row of bits.
use asn.Base.{
  ℕ, zero, suc, ◌+◌, ◌-◌, ◌*◌, ◌/◌, ◌%◌, ◌^◌, ◌≤◌, ◌<◌, ◌≡◌, refl, sym, Bool, false, not, ◌==◌,
  Option, none, some, List, [], ◌∷◌, length, take, get_elem?, get_elem?-lt, leb, Bool-cases, inl,
  inr, size_mod, arith, length-take,
}
use native.Mathlib.Nat.{zero-div}
use asn.Base.Bits.{bit_and-mod}
use asn.Types.Access.{ok}
use asn.Types.BitString.{BitString, bit_get, bit_count}

-- The bit of weight `2 ^ k`.
abbrev weight_bit : ℕ → ℕ → Bool
weight_bit byte k = not (byte / 2 ^ k % 2 == 0)

-- The bits of bytes in a row, the most significant bit of each byte first.
abbrev pub bits : List ℕ → List Bool
bits [] = []
bits (b ∷ bs) =
    weight_bit b 7
    ∷ weight_bit b 6
    ∷ weight_bit b 5
    ∷ weight_bit b 4
    ∷ weight_bit b 3
    ∷ weight_bit b 2
    ∷ weight_bit b 1
    ∷ weight_bit b 0
    ∷ bits bs

-- Behind the end there are zeros.
abbrev pub bit_or_zero : Option Bool → Bool
bit_or_zero none = false
bit_or_zero (some b) = b

abbrev byte_or_zero : Option ℕ → ℕ
byte_or_zero none = 0
byte_or_zero (some b) = b

zero_bit : (k : ℕ) → weight_bit 0 k ≡ false
zero_bit k = rw (zero-div (2 ^ k))

get_bits :
    (xs : List ℕ) (i : ℕ)
    → bit_or_zero (get_elem? (bits xs) i)
      ≡ weight_bit (byte_or_zero (get_elem? xs (i / 8))) (7 - i % 8)
get_bits [] i = sym (zero_bit (7 - i % 8))
get_bits (x ∷ xs) zero = refl
get_bits (x ∷ xs) (suc zero) = refl
get_bits (x ∷ xs) (suc (suc zero)) = refl
get_bits (x ∷ xs) (suc (suc (suc zero))) = refl
get_bits (x ∷ xs) (suc (suc (suc (suc zero)))) = refl
get_bits (x ∷ xs) (suc (suc (suc (suc (suc zero))))) = refl
get_bits (x ∷ xs) (suc (suc (suc (suc (suc (suc zero)))))) = refl
get_bits (x ∷ xs) (suc (suc (suc (suc (suc (suc (suc zero))))))) = refl
get_bits (x ∷ xs) (suc (suc (suc (suc (suc (suc (suc (suc i)))))))) =
    let j : ℕ = suc (suc (suc (suc (suc (suc (suc (suc i))))))) in
    let byte : j / 8 ≡ suc (i / 8) = omega arith in
    let bit : j % 8 ≡ i % 8 = omega arith in rw (byte, bit) (get_bits xs i)

get_elem?-take_lt : (xs : List ℕ) (n i : ℕ) → i < n → get_elem? (take n xs) i ≡ get_elem? xs i
get_elem?-take_lt xs zero i h = absurd (omega arith)
get_elem?-take_lt [] (suc n) i h = refl
get_elem?-take_lt (x ∷ xs) (suc n) zero h = refl
get_elem?-take_lt (x ∷ xs) (suc n) (suc i) h = get_elem?-take_lt xs n i (omega arith)

get_elem?-take_le : (xs : List ℕ) (n i : ℕ) → n ≤ i → get_elem? (take n xs) i ≡ none
get_elem?-take_le xs zero i h = refl
get_elem?-take_le [] (suc n) i h = refl
get_elem?-take_le (x ∷ xs) (suc n) zero h = absurd (omega arith)
get_elem?-take_le (x ∷ xs) (suc n) (suc i) h = get_elem?-take_le xs n i (omega arith)

length-bits : (xs : List ℕ) → length (bits xs) ≡ 8 * length xs
length-bits [] = refl
length-bits (x ∷ xs) = omega (arith, length-bits xs)

-- asn1_bit_string_get() gives the bit of the row at the index, and zero behind its end, whatever the
-- index is; the row has as many bits as asn1_bit_string_bit_count() says and the unused ones. The bytes
-- are there, the unused bits are among those of the last byte, and the bits can be counted in 64 bits.
pub bit_get-bits :
    (bs : BitString) (i : ℕ)
    → bs.byte_count ≤ length bs.bytes
    → bs.unused_bits ≤ 8 * bs.byte_count
    → 8 * bs.byte_count < size_mod
    → (bit_get bs i ≡ ok (bit_or_zero (get_elem? (bits (take bs.byte_count bs.bytes)) i)))
      × (bit_count bs + bs.unused_bits ≡ length (bits (take bs.byte_count bs.bytes)))
unfolding bit_get bit_count
bit_get-bits bs i there few small =
    let row = take bs.byte_count bs.bytes in
    (
      elim (Bool-cases (leb bs.byte_count (i / 8))) [
        | inl behind ↦
            let none_there = get_elem?-take_le bs.bytes bs.byte_count (i / 8) (ground arith) in
            rw (behind, get_bits row i, none_there, zero_bit (7 - i % 8))
        | inr inside ↦
            let (b, found) = get_elem?-lt bs.bytes (i / 8) (ground arith) in
            let same = get_elem?-take_lt bs.bytes bs.byte_count (i / 8) (ground arith) in
            rw (inside, get_bits row i, same, found, bit_and-mod 1 (b / 2 ^ (7 - i % 8)))
      ],
      rw (length-bits row, length-take bs.byte_count bs.bytes there) (ground arith),
    )
