-- ===== src/Parser/Canonical.antt =====
-- parse_length() under DER: every length that it accepts is written as asn1_encode_length() writes it.
use asn.Base.{
  ℕ, zero, suc, ◌+◌, ◌*◌, ◌/◌, ◌%◌, ◌^◌, ◌≤◌, ◌<◌, ◌≡◌, refl, ap, sym, ◌∙◌, true, Bool-cases, inl,
  inr, some, List, [], ◌∷◌, ◌++◌, append_assoc, length, length-append, drop, get_elem?,
  get_elem?-lt, ltb, leb, ◌==◌, arith, All, IsByte, Returns, Returns-bind, Returns-mono,
  Returns-if_op, returned, raised, bit_and, bit_or, size_mod, String, add_size,
}
use asn.Base.Bits.{bit_and-mod, bit_or_top, bit_and_top}
use asn.Error.{ErrorCode}
use asn.Encoding.{octets_needed, fill_octets, encode_length}
use asn.Encoding.Octets.{count_octets-le_digits}
use asn.Buffer.{Buffer, read_byte, need_byte}
use asn.Buffer.Reads.{advance}
use asn.Parser.Header.{
  Length, definite, der, push_octet, length_loop, check_minimal, required_loop, long_length,
  length_of, parse_length,
}
use asn.Parser.Required.{required_loop-octets_needed}
use asn.Types.Octets.{push_octet-eq}
use asn.Types.Safety.{All-get_elem?}
use native.Mathlib.Nat.{pow-suc, pow-le-pow_right}

-- A reader over an array of bytes that is as long as it says.
pub record IsOver (b : Buffer) : Type 0 where
  pub readable : b.length ≤ length b.input
  pub small : b.length < size_mod
  pub octets : All IsByte b.input

-- From `b` to `c` the bytes `xs` are read.
pub record Takes (b : Buffer) (xs : List ℕ) (c : Buffer) : Type 0 where
  pub over : IsOver c
  pub end_at : c ≡ advance b (length xs)
  pub bytes : drop b.offset b.input ≡ xs ++ drop c.offset c.input
  pub inside : b.offset ≤ b.length → c.offset ≤ c.length

pub Takes-none : (b : Buffer) → IsOver b → Takes b [] b
Takes-none b h = record {
  over = h;
  end_at = ap (λ o. record b { offset = o }) {x = b.offset} {y = b.offset + 0} (omega arith);
  bytes = refl;
  inside = λ k. k;
}

pub Takes-append :
    {b c d : Buffer} (xs ys : List ℕ) → Takes b xs c → Takes c ys d → Takes b (xs ++ ys) d
Takes-append {b} xs ys f g = record {
  over = g.over;
  end_at =
      g.end_at
      ∙ ap (λ c. advance c (length ys)) f.end_at
      ∙ ap (λ o. record b { offset = o }) (omega (arith, length-append xs ys));
  bytes = f.bytes ∙ ap (λ l. xs ++ l) g.bytes ∙ sym (append_assoc xs ys _);
  inside = λ k. g.inside (f.inside k);
}

pub drop-get_elem? :
    (xs : List ℕ) (i : ℕ) {x : ℕ} → get_elem? xs i ≡ some x → drop i xs ≡ x ∷ drop (suc i) xs
drop-get_elem? [] i h = cc
drop-get_elem? (y ∷ ys) zero {x = x} h = let same : y ≡ x = cc in ap (λ z. z ∷ ys) same
drop-get_elem? (y ∷ ys) (suc i) h = drop-get_elem? ys i h

pub need_byte-Takes :
    (e : ErrorCode) (m : String) (b : Buffer)
    → IsOver b
    → Returns (λ x c. Takes b (x ∷ []) c × IsByte x) (λ _. Unit) (need_byte e m b)
unfolding need_byte read_byte
need_byte-Takes e m b h = elim (Bool-cases (leb b.length b.offset)) [
  | inl ended ↦ rw ended (raised tt)
  | inr more ↦
      let inside : b.offset < b.length = ground arith in
      let (x, found) = get_elem?-lt b.input b.offset (omega (arith, h.readable)) in
      let step : add_size b.offset 1 ≡ b.offset + 1 = omega (arith, h.small) in
      rw (more, found, step)
        (returned (
          record {
            over = record { readable = h.readable; small = h.small; octets = h.octets };
            end_at = refl;
            bytes =
                drop-get_elem? b.input b.offset found
                ∙ ap (λ o. x ∷ drop o b.input) {x = suc b.offset} {y = b.offset + 1} (omega arith);
            inside = λ _. omega arith;
          },
          All-get_elem? b.input b.offset x h.octets found,
        ))
]

pub push_octet-below : (j v x : ℕ) → v < 256 ^ j → j ≤ 7 → IsByte x → push_octet v x ≡ v * 256 + x
push_octet-below j v x few low byte =
    let most : 256 ^ j ≤ 256 ^ 7 = pow-le-pow_right (omega arith) low in
    let same : v % 2 ^ 56 ≡ v = omega arith in push_octet-eq v x byte ∙ ap (λ t. t * 256 + x) same

-- The last digit of a pushed value is the byte.
fill_octets-pushed :
    (j v x : ℕ) (ds : List ℕ)
    → push_octet v x ≡ v * 256 + x
    → IsByte x
    → fill_octets (suc j) (push_octet v x) ds ≡ fill_octets j v (x ∷ ds)
unfolding fill_octets
fill_octets-pushed j v x ds pushed byte =
    let high : (v * 256 + x) / 2 ^ 8 ≡ v = omega arith in
    let low : (v * 256 + x) % 2 ^ 8 ≡ x = omega arith in
    rw (pushed, bit_and-mod 8 (v * 256 + x), high, low)

-- The loop on the digits behind the first `j`, whose value is `v`.
length_loop-Takes :
    (left j v : ℕ) (b : Buffer)
    → IsOver b
    → v < 256 ^ j
    → j + left ≤ 8
    → Returns
        (λ r c.
          (ds : List ℕ) × Takes b ds c
          × (fill_octets (j + left) r [] ≡ fill_octets j v ds)
          × (r < 256 ^ (j + left)))
        (λ _. Unit)
        (length_loop left v b)
unfolding length_loop
length_loop-Takes zero j v b h few fits =
    let same : j + 0 ≡ j = omega arith in
    returned ([], Takes-none b h, ap (λ k. fill_octets k v []) same, rw same few)
length_loop-Takes (suc left) j v b h few fits =
    Returns-bind (need_byte-Takes _ _ b h) λ x c (took, byte).
      let pushed : push_octet v x ≡ v * 256 + x = push_octet-below j v x few (omega arith) byte in
      let round : suc j + left ≡ j + suc left = omega arith in
      let bound : push_octet v x < 256 ^ suc j = omega (arith, pushed, pow-suc 256 j, byte) in
      Returns-mono
        (λ r d (ds, took', same, small). (
          x ∷ ds,
          Takes-append (x ∷ []) ds took took',
          rw round at (same ∙ fill_octets-pushed j v x ds pushed byte),
          rw round at small,
        ))
        (length_loop-Takes left (suc j) (push_octet v x) c took.over bound (omega arith))

-- What stands behind `front` is as asn1_encode_length() writes it.
abbrev pub IsCanonical : List ℕ → Buffer → Length → Buffer → Type 0
IsCanonical front b l c =
    (n : ℕ) × (l ≡ definite n) × (xs : List ℕ) × Takes b xs c × (front ++ xs ≡ encode_length n)

-- The octets behind the first byte.
long_length-Takes :
    (k : ℕ) (b : Buffer)
    → IsOver b
    → Returns (IsCanonical (bit_or 0x80 k ∷ []) b) (λ _. Unit) (long_length der k b)
unfolding long_length check_minimal encode_length
long_length-Takes k b h =
    Returns-if_op (k == 0) _ _ b (λ _. raised tt)
      λ some_octets.
        Returns-if_op (ltb 8 k) _ _ b (λ _. raised tt)
          λ few.
            Returns-bind (length_loop-Takes k 0 0 b h (omega arith) (ground arith))
              λ n c (ds, took, digits, small).
                Returns-if_op (leb n 0x7F) _ _ c (λ _. raised tt)
                  λ long.
                    Returns-if_op (ltb (required_loop 8 n 0) k) _ _ c (λ _. raised tt)
                      λ minimal.
                        let size : 0 + k ≡ k = omega arith in
                        let most = count_octets-le_digits k 8 n (rw size at small) in
                        let same : octets_needed n ≡ k =
                          ground (arith, required_loop-octets_needed n) in
                        let written : ds ≡ fill_octets k n [] =
                          sym digits ∙ ap (λ j. fill_octets j n []) size in
                        returned (n, refl, ds, took, rw (long, same, written) refl)

length_of-Takes :
    (x : ℕ) (b : Buffer)
    → IsOver b
    → IsByte x
    → Returns (IsCanonical (x ∷ []) b) (λ _. Unit) (length_of der x b)
unfolding length_of encode_length
length_of-Takes x b h byte =
    Returns-if_op (x == 0x80) _ _ b (λ _. raised tt)
      λ _.
        Returns-if_op (bit_and x 0x80 == 0) _ _ b
          (λ low.
            let short : leb x 0x7F ≡ true = ground (arith, bit_and_top x byte) in
            returned (x, refl, [], Takes-none b h, rw short refl))
          (λ high.
            let k : ℕ = bit_and x 0x7F in
            let low : k ≡ x % 128 = bit_and-mod 7 x in
            let top : 128 ≤ x = ground (arith, bit_and_top x byte) in
            let same : bit_or 0x80 k ≡ x = bit_or_top k (omega (arith, low)) ∙ omega (arith, low) in
            rw same at (long_length-Takes k b h))

-- parse_length() under DER returns on every input, and each length that it accepts is definite and
-- stands there exactly as asn1_encode_length() writes it: these bytes are read, and no others. The
-- array of bytes is as long as the caller says, and within the address space.
pub parse_length-IsCanonical :
    (b : Buffer) → IsOver b → Returns (IsCanonical [] b) (λ _. Unit) (parse_length der b)
unfolding parse_length
parse_length-IsCanonical b h = Returns-bind (need_byte-Takes _ _ b h) λ x c (took, byte).
    Returns-mono
      (λ l d (n, same, xs, took', canonical).
        (n, same, x ∷ xs, Takes-append (x ∷ []) xs took took', canonical))
      (length_of-Takes x c took.over byte)
