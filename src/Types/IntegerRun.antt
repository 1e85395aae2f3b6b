-- ===== src/Types/IntegerRun.antt =====
-- asn1_parse_int64() and asn1_parse_uint64() on the bytes that the serializers write.
use asn.Base.{
  ℕ, zero, suc, ◌-◌, ◌/◌, ◌^◌, ◌≤◌, ◌<◌, ◌≡◌, refl, ap, sym, ◌∙◌, List, [], ◌∷◌, ◌++◌, append-nil,
  arith, true, false, ltb, ◌==◌, ==→eq, ne→==, Bool-cases, inl, inr, bit_and, if◌then◌else◌, not,
  ◌&&◌, ◌||◌, length, some, drop, drop-append, ltb→lt, le→ltb,
}
use native.Mathlib.Nat.{div-le_self}
use asn.Identifier.{id_integer}
use asn.Parser.Node.{Node}
use asn.Types.Access.{ok, byte_at}
use asn.Types.Integer.{
  octet, octets_from, top_octet, top_negative, is_padded, check_padding, integer_loop,
  parse_integer_bytes, parse_int64, parse_uint64, unsigned_octets, signed_octets,
}
use asn.Types.Octets.{
  octet-lt, div-suc, length-octets_from, byte_at-drop, integer_loop-run, above, above-step,
  above_negative, above_negative-step,
}
use asn.Types.TopOctet.{
  top_bit, le-top_octet, above-top_octet, top_octet-IsMinimal, IsMinimal, IsTop, top_negative-IsTop,
}
use asn.Types.Leaf.{Carries, expect-Carries}

module _ (node : Node) (x : ℕ) (xs : List ℕ) (h : Carries node id_integer (x ∷ xs)) where
  first_byte : byte_at node 0 ≡ some x
  first_byte = byte_at-drop node (x ∷ xs) 0 h.bytes refl

  parse_integer_bytes-Carries :
      parse_integer_bytes node
      ≡ ok (record {
        bytes = some (x ∷ xs);
        length = suc (length xs);
        negative = not (bit_and x 0x80 == 0);
      })
  unfolding parse_integer_bytes
  parse_integer_bytes-Carries =
      expect-Carries node id_integer (x ∷ xs) _ _ _ h
      ∙ rw (h.count, ne→== (suc (length xs)) 0 (omega arith), first_byte, h.bytes)

  parse_int64-run :
      (value : ℕ)
      → length xs ≤ 7
      → check_padding node (suc (length xs)) ≡ ok tt
      → integer_loop node (suc (length xs)) 0 (if not (bit_and x 0x80 == 0) then 2 ^ 64 - 1 else 0)
        ≡ ok value
      → parse_int64 node ≡ ok value
  unfolding parse_int64
  parse_int64-run value few minimal loop =
      rw (parse_integer_bytes-Carries, le→ltb 8 (suc (length xs)) (omega arith), minimal) loop

  parse_uint64-run :
      (value : ℕ)
      → (bit_and x 0x80 == 0) ≡ true
      → (ltb 9 (suc (length xs)) || (suc (length xs) == 9 && not (x == 0))) ≡ false
      → integer_loop node (suc (length xs)) 0 0 ≡ ok value
      → parse_uint64 node ≡ ok value
  unfolding parse_uint64 integer_loop
  parse_uint64-run value low fits loop =
      rw (parse_integer_bytes-Carries, low, first_byte, fits) (rw first_byte at loop)

-- Two bytes at the front that are not a padded encoding.
check_padding-two :
    (node : Node) (x y : ℕ) (ys : List ℕ) (n : ℕ)
    → Carries node id_integer (x ∷ y ∷ ys)
    → is_padded x y ≡ false
    → check_padding node n ≡ ok tt
unfolding check_padding
check_padding-two node x y ys n h minimal = elim (Bool-cases (ltb 1 n)) [
  | inl e ↦ rw (
    e,
    byte_at-drop node (x ∷ y ∷ ys) 0 h.bytes refl,
    byte_at-drop node (x ∷ y ∷ ys) 1 h.bytes refl,
    minimal,
  )
  | inr e ↦ rw e
]

check_padding-IsMinimal :
    (node : Node) (k value : ℕ)
    → Carries node id_integer (octets_from k value)
    → IsMinimal k value
    → check_padding node (suc k) ≡ ok tt
unfolding octets_from
check_padding-IsMinimal node zero value h minimal = unfold check_padding in refl
check_padding-IsMinimal node (suc zero) value h minimal =
    check_padding-two node (octet value 1) (octet value 0) [] 2 h (unfold IsMinimal in minimal)
check_padding-IsMinimal node (suc (suc k)) value h minimal =
    check_padding-two node (octet value (suc (suc k))) (octet value (suc k)) (octets_from k value)
      (suc (suc (suc k))) h (unfold IsMinimal in minimal)

-- The bytes behind the first.
tail_octets : ℕ → ℕ → List ℕ
tail_octets zero value = []
tail_octets (suc k) value = octets_from k value

octets_from-head : (k value : ℕ) → octets_from k value ≡ octet value k ∷ tail_octets k value
unfolding octets_from tail_octets
octets_from-head zero value = refl
octets_from-head (suc k) value = refl

length-tail_octets : (k value : ℕ) → length (tail_octets k value) ≡ k
unfolding tail_octets
length-tail_octets zero value = refl
length-tail_octets (suc k) value = length-octets_from k value

-- The bytes of a negative number.
parse_int64-negative :
    (node : Node) (k value : ℕ)
    → value < 2 ^ 64
    → IsTop k value
    → Carries node id_integer (octets_from k value)
    → parse_int64 node ≡ ok value
parse_int64-negative node k value small h c =
    let c' = rw (octets_from-head k value) at c in
    let len = length-tail_octets k value in
    let start : above_negative value (suc k) ≡ 2 ^ 64 - 1 =
      let power : 256 ^ (8 - suc k) ≡ 256 ^ (7 - k) = ap (λ j. 256 ^ j) (omega (arith, h.few)) in
      omega (arith, power, h.ones, div-le_self value (256 ^ suc k)) in
    let end : above_negative value 0 ≡ value = omega arith in
    let loop : integer_loop node (suc k) 0 (2 ^ 64 - 1) ≡ ok value =
      rw (start, end) at
        (integer_loop-run node (octets_from k value) value (above_negative value) k 0 [] c.bytes
          (λ m l. above_negative-step value m small (omega (arith, h.few))) (sym (append-nil _))) in
    let high : (bit_and (octet value k) 0x80 == 0) ≡ false =
      rw (top_bit (octet value k) (octet-lt value k)) (le→ltb (octet value k) 128 h.top) in
    parse_int64-run node (octet value k) (tail_octets k value) c' value (omega (arith, h.few))
      (rw len (check_padding-IsMinimal node k value c h.minimal)) (rw (len, high) loop)

-- The bytes of a number that is not negative: `more` is the zero in front.
module _ (node : Node) (value : ℕ) (small : value < 2 ^ 64)
    (c : Carries node id_integer (unsigned_octets value)) where
  abbrev last : ℕ
  last = top_octet 7 value

  above-last : above value (suc last) ≡ 0
  above-last = above-top_octet 7 value (omega arith)

  top_test : (bit_and (value / 256 ^ last) 0x80 == 0) ≡ ltb (octet value last) 128
  top_test =
      let same : value / 256 ^ last ≡ octet value last =
        omega (arith, div-suc value last, above-last) in
      ap (λ b. bit_and b 0x80 == 0) same ∙ top_bit (octet value last) (octet-lt value last)

  loop_from :
      (i : ℕ) (front : List ℕ)
      → length front ≡ i
      → node.data_bytes ≡ some (front ++ octets_from last value)
      → integer_loop node (suc last) i 0 ≡ ok value
  loop_from i front e bytes =
      let end : above value 0 ≡ value = omega arith in
      let start : drop i (front ++ octets_from last value) ≡ octets_from last value ++ [] =
        rw (← e) (drop-append front (octets_from last value) ∙ sym (append-nil _)) in
      rw (above-last, end) at
        (integer_loop-run node (front ++ octets_from last value) value (above value) last i [] bytes
          (λ m l. above-step value m small) start)

  octets_low : ltb (octet value last) 128 ≡ true → unsigned_octets value ≡ octets_from last value
  unfolding unsigned_octets
  octets_low low = rw (top_test, low)

  octets_high :
      ltb (octet value last) 128 ≡ false → unsigned_octets value ≡ 0 ∷ octets_from last value
  unfolding unsigned_octets
  octets_high high = rw (top_test, high)

  loop_zero :
      Carries node id_integer (0 ∷ octets_from last value)
      → integer_loop node (suc (suc last)) 0 0 ≡ ok value
  unfolding integer_loop
  loop_zero c' =
      rw (byte_at-drop node (0 ∷ octets_from last value) 0 c'.bytes refl)
        (loop_from 1 (0 ∷ []) refl c'.bytes)

  pub parse_uint64-unsigned : parse_uint64 node ≡ ok value
  parse_uint64-unsigned = elim (Bool-cases (ltb (octet value last) 128)) [
    | inl low ↦
        let cl = rw (octets_low low) at c in
        let c' = rw (octets_from-head last value) at cl in
        let len = length-tail_octets last value in
        let few = le-top_octet 7 value in
        parse_uint64-run node (octet value last) (tail_octets last value) c' value
          (top_bit (octet value last) (octet-lt value last) ∙ low)
          (rw (
            len,
            le→ltb 9 (suc last) (omega (arith, few)),
            ne→== (suc last) 9 (omega (arith, few)),
          ))
          (rw len (loop_from 0 [] refl cl.bytes))
    | inr high ↦
        let c' = rw (octets_high high) at c in
        let len = length-octets_from last value in
        let few = le-top_octet 7 value in
        parse_uint64-run node 0 (octets_from last value) c' value refl
          (rw (len, le→ltb 9 (suc (suc last)) (omega (arith, few))) (ground arith))
          (rw len (loop_zero c'))
  ]

  parse_int64-unsigned : value < 2 ^ 63 → parse_int64 node ≡ ok value
  parse_int64-unsigned half = elim (Bool-cases (ltb (octet value last) 128)) [
    | inl low ↦
        let cl = rw (octets_low low) at c in
        let c' = rw (octets_from-head last value) at cl in
        let len = length-tail_octets last value in
        let few = le-top_octet 7 value in
        let bit = top_bit (octet value last) (octet-lt value last) ∙ low in
        let minimal = top_octet-IsMinimal 7 value (omega arith) (ltb→lt _ _ low) in
        parse_int64-run node (octet value last) (tail_octets last value) c' value
          (omega (arith, len, few)) (rw len (check_padding-IsMinimal node last value cl minimal))
          (rw (len, bit) (loop_from 0 [] refl cl.bytes))
    | inr high ↦
        let c' = rw (octets_high high) at c in
        let c'' = rw (octets_from-head last value) at c' in
        let len = length-octets_from last value in
        let bit = top_bit (octet value last) (octet-lt value last) ∙ high in
        parse_int64-run node 0 (octets_from last value) c' value (omega (arith, len, short high))
          (check_padding-two node 0 (octet value last) (tail_octets last value) _ c'' (rw bit refl))
          (rw len (loop_zero c'))
  ]
    where
      -- A zero in front leaves room for seven bytes.
      short : ltb (octet value last) 128 ≡ false → last ≤ 6
      short high = elim (Bool-cases (last == 7)) [
        | inl e ↦
            let top : octet value last ≡ octet value 7 = ap (octet value) (==→eq _ _ e) in
            let high' : ltb (octet value 7) 128 ≡ false = rw top at high in absurd (ground arith)
        | inr e ↦ ground (arith, le-top_octet 7 value)
      ]

-- The bytes that asn1_serialize_int64() writes.
pub parse_int64-signed :
    (node : Node) (value : ℕ)
    → value < 2 ^ 64
    → Carries node id_integer (signed_octets value)
    → parse_int64 node ≡ ok value
unfolding signed_octets
parse_int64-signed node value small c = elim (Bool-cases (ltb value (2 ^ 63))) [
  | inl e ↦ parse_int64-unsigned node value small (rw e at c) (ltb→lt _ _ e)
  | inr e ↦
      parse_int64-negative node (top_negative 7 value) value small
        (top_negative-IsTop value small (ground arith)) (rw e at c)
]
