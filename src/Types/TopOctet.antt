-- ===== src/Types/TopOctet.antt =====
-- asn1_serialize_int64() and asn1_serialize_uint64(): the byte that the encoding begins with.
use asn.Base.{
  ℕ, zero, suc, ◌+◌, ◌-◌, ◌*◌, ◌/◌, ◌^◌, ◌≤◌, ◌<◌, ◌≡◌, ap, ◌∙◌, arith, false, ltb, ◌==◌, ==→eq,
  ne→==, Bool-cases, inl, inr, bit_and, not, ◌&&◌,
}
use asn.Base.Bits.{bit_and_top}
use asn.Types.Integer.{octet, top_octet, top_negative, is_padded}
use native.Mathlib.Nat.{pow-suc, mul_comm}
use asn.Types.Octets.{octet-lt, div-suc}

pub le-top_octet : (k value : ℕ) → top_octet k value ≤ k
unfolding top_octet
le-top_octet zero value = omega arith
le-top_octet (suc k) value = ground (arith, le-top_octet k value)

pub le-top_negative : (k value : ℕ) → top_negative k value ≤ k
unfolding top_negative
le-top_negative zero value = omega arith
le-top_negative (suc k) value = ground (arith, le-top_negative k value)

-- The skipped bytes of a number that is not negative are zero.
pub above-top_octet :
    (k value : ℕ) → value / 256 ^ suc k ≡ 0 → value / 256 ^ suc (top_octet k value) ≡ 0
unfolding top_octet
above-top_octet zero value h = h
above-top_octet (suc k) value h = elim (Bool-cases (value / 256 ^ suc k == 0)) [
  | inl e ↦ rw e (above-top_octet k value (==→eq _ _ e))
  | inr e ↦ rw e h
]

-- The test of the top bit of a byte.
pub top_bit : (b : ℕ) → b < 256 → (bit_and b 0x80 == 0) ≡ ltb b 128
top_bit b h = rw (bit_and_top b h) (ground arith)

-- The encoding that begins with the byte `k` does not begin with a byte that could be left out.
unfoldable pub IsMinimal : ℕ → ℕ → Type 0
IsMinimal zero value = Unit
IsMinimal (suc k) value = is_padded (octet value (suc k)) (octet value k) ≡ false

pub top_octet-IsMinimal :
    (k value : ℕ)
    → value / 256 ^ suc k ≡ 0
    → octet value (top_octet k value) < 128
    → IsMinimal (top_octet k value) value
unfolding top_octet IsMinimal
top_octet-IsMinimal zero value h low = tt
top_octet-IsMinimal (suc k) value h low = elim (Bool-cases (value / 256 ^ suc k == 0)) [
  | inl e ↦ rw e (top_octet-IsMinimal k value (==→eq _ _ e) (rw e at low))
  | inr e ↦
      let first : octet value (suc k) ≡ value / 256 ^ suc k =
        omega (arith, div-suc value (suc k)) in
      let low' : octet value (suc k) < 128 = rw e at low in
      rw e (rw (ne→== (octet value (suc k)) 255 (omega arith), first, e))
]

-- What the encoding of a negative number begins with.
pub record IsTop (k value : ℕ) : Type 0 where
  pub few : k ≤ 7
  pub ones : value / 256 ^ suc k + 1 ≡ 256 ^ (7 - k)
  pub top : 128 ≤ octet value k
  pub minimal : IsMinimal k value

top_negative-run :
    (k value : ℕ)
    → k ≤ 7
    → value / 256 ^ suc k + 1 ≡ 256 ^ (7 - k)
    → 128 ≤ octet value k
    → IsTop (top_negative k value) value
unfolding top_negative
top_negative-run zero value few ones top = record {
  few = few;
  ones = ones;
  top = top;
  minimal = unfold IsMinimal in tt;
}
top_negative-run (suc k) value few ones top =
    elim (Bool-cases (octet value (suc k) == 0xFF && not (bit_and (octet value k) 0x80 == 0))) [
      | inl e ↦
          let e' = rw (top_bit (octet value k) (octet-lt value k)) at e in
          let top' : 128 ≤ octet value k = ground arith in
          let ff : octet value (suc k) ≡ 255 = ground arith in
          let up : 256 ^ (7 - k) ≡ 256 * 256 ^ (7 - suc k) =
            ap (λ j. 256 ^ j) {y = suc (7 - suc k)} (omega arith)
            ∙ pow-suc 256 (7 - suc k)
            ∙ mul_comm _ _ in
          rw e
            (top_negative-run k value (omega arith) (omega (arith, up, div-suc value (suc k))) top')
      | inr e ↦ rw e (record {
        few = few;
        ones = ones;
        top = top;
        minimal = unfold IsMinimal in rw (ne→== (octet value (suc k)) 0 (omega arith), e);
      })
    ]

pub top_negative-IsTop :
    (value : ℕ) → value < 2 ^ 64 → 2 ^ 63 ≤ value → IsTop (top_negative 7 value) value
top_negative-IsTop value small negative =
    top_negative-run 7 value (omega arith) (omega arith) (omega arith)
