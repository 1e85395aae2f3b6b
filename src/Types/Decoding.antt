-- ===== src/Types/Decoding.antt =====
-- asn1_types.c, INTEGER: the number that the parsers give for the bytes of any node.
use asn.Base.{
  ℕ, zero, suc, ◌+◌, ◌-◌, ◌*◌, ◌^◌, ◌≤◌, ◌<◌, ◌≡◌, refl, ap, sym, ◌∙◌, Bool, false, not, ◌&&◌, ◌||◌,
  List, [], ◌∷◌, take, drop, get_elem?-lt, ltb, leb, ◌==◌, ==→eq, if◌then◌else◌, arith, access,
  IsByte, Returns-bind, Returns-mono, Returns-if, returned, raised, bit_and, Bool-cases, inl, inr,
}
use asn.Identifier.{id_integer}
use asn.Parser.Node.{Node}
use asn.Parser.Header.{push_octet}
use asn.Parser.Grammar.{number_from}
use asn.Parser.Canonical.{drop-get_elem?, push_octet-below}
use asn.Types.Access.{byte_at}
use asn.Types.Integer.{parse_integer_bytes, integer_loop, parse_int64, parse_uint64}
use asn.Types.Octets.{push_octet-eq}
use asn.Types.TopOctet.{top_bit}
use asn.Types.Safety.{IsInside, Reads, expect-Reads, All-get_elem?, check_padding-Reads}
use native.Mathlib.Nat.{pow-suc, pow-le-pow_right}

-- As `number_from`, for a negative number: from `- m` to the negative of the result.
abbrev pub minus_from : ℕ → List ℕ → ℕ
minus_from m [] = m
minus_from m (x ∷ xs) = minus_from (m * 256 - x) xs

abbrev pub is_negative : List ℕ → Bool
is_negative [] = false
is_negative (x ∷ xs) = leb 128 x

-- The bit pattern of two's complement in 64 bits.
abbrev pub pattern_of : List ℕ → ℕ
pattern_of bytes = if is_negative bytes then 2 ^ 64 - minus_from 1 bytes else number_from 0 bytes

module _ (node : Node) (h : IsInside node) where
  -- A byte of the data, and what is behind it.
  byte_at-array :
      (i : ℕ)
      → i < node.data_length
      → Reads
          (λ x. IsByte x × (drop i h.array ≡ x ∷ drop (suc i) h.array))
          (access (byte_at node i) tt)
  unfolding byte_at
  byte_at-array i low =
      let (x, e) = get_elem?-lt h.array i (omega (arith, h.enough)) in
      rw (h.found, e) (returned (All-get_elem? h.array i x h.octets e, drop-get_elem? h.array i e))

  integer_loop-number :
      (left i j v : ℕ)
      → i + left ≤ node.data_length
      → v < 256 ^ j
      → j + left ≤ 8
      → Reads (λ r. r ≡ number_from v (take left (drop i h.array))) (integer_loop node left i v)
  unfolding integer_loop
  integer_loop-number zero i j v few small fits = returned refl
  integer_loop-number (suc left) i j v few small fits =
      Returns-bind (byte_at-array i (omega arith)) λ x _ (byte, bytes).
        let pushed : push_octet v x ≡ v * 256 + x =
          push_octet-below j v x small (omega arith) byte in
        let next : suc i ≡ i + 1 = omega arith in
        rw (bytes, pushed, next)
          (integer_loop-number left (i + 1) (suc j) (v * 256 + x) (omega arith)
            (omega (arith, pow-suc 256 j, byte)) (omega arith))

  integer_loop-minus :
      (left i j m : ℕ)
      → i + left ≤ node.data_length
      → 0 < m
      → m ≤ 256 ^ j
      → j + left ≤ 8
      → Reads
          (λ r. r ≡ 2 ^ 64 - minus_from m (take left (drop i h.array)))
          (integer_loop node left i (2 ^ 64 - m))
  unfolding integer_loop
  integer_loop-minus zero i j m few pos small fits = returned refl
  integer_loop-minus (suc left) i j m few pos small fits =
      Returns-bind (byte_at-array i (omega arith)) λ x _ (byte, bytes).
        let low : j ≤ 7 = omega arith in
        let most : 256 ^ j ≤ 256 ^ 7 = pow-le-pow_right (omega arith) low in
        let pushed : push_octet (2 ^ 64 - m) x ≡ 2 ^ 64 - (m * 256 - x) =
          push_octet-eq (2 ^ 64 - m) x byte ∙ omega arith in
        let next : suc i ≡ i + 1 = omega arith in
        rw (bytes, pushed, next)
          (integer_loop-minus left (i + 1) (suc j) (m * 256 - x) (omega arith) (omega arith)
            (omega (arith, pow-suc 256 j)) (omega arith))

  -- What asn1_parse_integer_bytes() says of the data.
  parse_integer_bytes-sign :
      Reads
        (λ b.
          (b.length ≡ node.data_length)
          × (0 < b.length)
          × (b.negative ≡ is_negative (take node.data_length h.array)))
        (parse_integer_bytes node)
  unfolding parse_integer_bytes
  parse_integer_bytes-sign =
      expect-Reads node id_integer "Expected INTEGER" "INTEGER must be primitive" _ (
        Returns-if (node.data_length == 0) (λ _. raised tt)
          λ some_bytes.
            let pos : 0 < node.data_length = ground arith in
            Returns-bind (byte_at-array 0 pos)
              λ x _ (byte, bytes). returned (refl, pos, sign node.data_length pos x byte bytes))
    where
      sign :
          (n : ℕ)
          → 0 < n
          → (x : ℕ) → IsByte x
          → drop 0 h.array ≡ x ∷ drop 1 h.array
          → not (bit_and x 0x80 == 0) ≡ is_negative (take n h.array)
      sign zero pos x byte bytes = absurd (omega arith)
      sign (suc n) pos x byte bytes = rw (top_bit x byte, bytes) (ground arith)

  -- asn1_parse_int64() on any node whose data lies within an array of bytes: where it succeeds, it gives
  -- the number of which the data is the two's complement, as its bit pattern in 64 bits, and reads no
  -- byte outside the data.
  pub parse_int64-pattern_of :
      Reads (λ v. v ≡ pattern_of (take node.data_length h.array)) (parse_int64 node)
  unfolding parse_int64
  parse_int64-pattern_of = Returns-bind parse_integer_bytes-sign λ b _ (whole, more, sign).
      Returns-if (ltb 8 b.length) (λ _. raised tt)
        λ few.
          let fits : 0 + node.data_length ≤ 8 = ground arith in
          rw whole (
            Returns-bind (check_padding-Reads node h) λ _ _ _.
              elim (Bool-cases (is_negative (take node.data_length h.array))) [
                | inl e ↦
                    rw (sign, e)
                      (integer_loop-minus node.data_length 0 0 1 (omega arith) (omega arith)
                        (omega arith) fits)
                | inr e ↦
                    rw (sign, e)
                      (integer_loop-number node.data_length 0 0 0 (omega arith) (omega arith) fits)
              ])

  -- Nine bytes, of which the first is zero.
  integer_loop-nine :
      9 ≤ node.data_length
      → drop 0 h.array ≡ 0 ∷ drop 1 h.array
      → Reads (λ v. v ≡ number_from 0 (take 9 (drop 0 h.array))) (integer_loop node 9 0 0)
  unfolding integer_loop
  integer_loop-nine enough zero_first =
      Returns-bind (byte_at-array 0 (omega arith)) λ x _ (byte, bytes).
        let none : x ≡ 0 = cc in
        let pushed : push_octet 0 x ≡ 0 =
          push_octet-below 0 0 x (omega arith) (omega arith) byte ∙ omega arith in
        rw (pushed, zero_first)
          (integer_loop-number 8 1 0 0 (omega arith) (omega arith) (omega arith))

  -- asn1_parse_uint64() on any node whose data lies within an array of bytes: where it succeeds, it gives
  -- the number that the data is in base 256, of which the first bit is not set, and reads no byte
  -- outside the data.
  pub parse_uint64-number_from :
      Reads
        (λ v.
          (v ≡ number_from 0 (take node.data_length h.array))
          × (is_negative (take node.data_length h.array) ≡ false))
        (parse_uint64 node)
  unfolding parse_uint64
  parse_uint64-number_from = Returns-bind parse_integer_bytes-sign λ b _ (whole, more, sign).
      Returns-if b.negative (λ _. raised tt)
        λ plus.
          let same : is_negative (take node.data_length h.array) ≡ false = sym sign ∙ plus in
          Returns-bind (byte_at-array 0 (omega (arith, whole))) λ x _ (byte, bytes).
            Returns-if (ltb 9 b.length || b.length == 9 && not (x == 0)) (λ _. raised tt)
              λ fits.
                Returns-mono (λ v _ e. (e, same))
                  (elim (Bool-cases (b.length == 9)) [
                    | inl nine ↦
                        let all : b.length ≡ 9 = ==→eq b.length 9 nine in
                        let size : node.data_length ≡ 9 = sym whole ∙ all in
                        let none : x ≡ 0 = ground arith in
                        rw (all, size)
                          (integer_loop-nine (omega (arith, size))
                            (bytes ∙ ap (λ z. z ∷ drop 1 h.array) none))
                    | inr fewer ↦
                        let few : node.data_length ≤ 8 = ground (arith, whole) in
                        rw whole (
                          integer_loop-number node.data_length 0 0 0 (omega arith) (omega arith)
                            (omega (arith, few)))
                  ])
