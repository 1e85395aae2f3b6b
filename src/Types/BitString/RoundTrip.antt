-- ===== src/Types/BitString/RoundTrip.antt =====
-- asn1_types.c, BIT STRING: what is written is read back.
use asn.Base.{
  ℕ, suc, ◌+◌, ◌-◌, ◌^◌, ◌≤◌, ◌<◌, ◌≡◌, refl, ap, ◌∙◌, false, not, ◌&&◌, ◌==◌, some, List, [], ◌∷◌,
  ◌++◌, append-nil, length, length-append, ltb, le→ltb, eq→==, ne→==, Bool-cases, inl, inr, bit_and,
  add_size, done, arith, get_elem?,
}
use asn.Identifier.{id_bit_string}
use asn.Encoding.{encode_identifier, encode_length}
use asn.Parser.Header.{EncodingRules}
use asn.Parser.Node.{Node, ParseResult}
use asn.Serializer.{Serializer, serializer_init}
use asn.Serializer.Writes.{
  Holds, appended, appended-appended, Holds-appended, write_whole, write_content,
}
use asn.Tree.{leaf, encode}
use asn.Types.Access.{ok, byte_at}
use asn.Types.BitString.{BitString, parse_bit_string, serialize_bit_string, check_unused, take_bits}
use asn.Types.Leaf.{Carries, Delivers, Delivers-mono, written-Delivers, expect-Carries}
use asn.Types.Octets.{byte_at-drop}
use asn.Types.RoundTrip.{HasSpace}
use asn.RoundTrip.{serializer_init-Holds}

-- The last of the bytes.
abbrev last_byte : ℕ → List ℕ → ℕ
last_byte b [] = b
last_byte b (x ∷ xs) = last_byte x xs

-- The bit string of `xs` with the count of unused bits that DER asks for: at most 7, none without a
-- byte, and zeros in the last byte.
abbrev pub bit_string : List ℕ → ℕ → BitString
bit_string xs unused = record { bytes = xs; byte_count = length xs; unused_bits = unused }

pub record IsBitString (xs : List ℕ) (unused : ℕ) : Type 0 where
  pub few : unused ≤ 7
  pub none_without : length xs ≡ 0 → unused ≡ 0
  pub zeros : bit_and (last_byte 0 xs) (2 ^ unused - 1) ≡ 0

-- asn1_serialize_bit_string() writes the count and the bytes as asn1_serialize_primitive() would.
module _ (xs : List ℕ) (unused : ℕ) (s : Serializer) (out : List ℕ) (h : Holds s out)
    (room : s.length + length (encode (leaf id_bit_string (unused ∷ xs))) ≤ s.capacity) where
  abbrev first : List ℕ
  first = encode_identifier id_bit_string false

  abbrev second : List ℕ
  second = encode_length (suc (length xs))

  room_parts : s.length + length first + length second + 1 + length xs ≤ s.capacity
  unfolding encode
  room_parts = omega (
    arith,
    room,
    length-append first (second ++ (unused ∷ xs)),
    length-append second (unused ∷ xs),
  )

  pub serialize_bit_string-appended :
      serialize_bit_string (bit_string xs unused) s
      ≡ done tt (appended s (encode (leaf id_bit_string (unused ∷ xs))))
  unfolding serialize_bit_string encode
  serialize_bit_string-appended =
      let s1 = appended s first in
      let s2 = appended s1 second in
      let s3 = appended s2 (unused ∷ []) in
      let total : add_size 1 (length xs) ≡ suc (length xs) = omega (arith, room_parts, h.small) in
      let h1 = Holds-appended s out first h (omega (arith, room_parts)) in
      let h2 = Holds-appended s1 (out ++ first) second h1 (omega (arith, room_parts)) in
      let h3 =
        Holds-appended s2 ((out ++ first) ++ second) (unused ∷ []) h2 (omega (arith, room_parts)) in
      rw
        (
          total,
          write_whole first s h (omega (arith, room_parts)),
          write_whole second s1 h1 (omega (arith, room_parts)),
          write_whole (unused ∷ []) s2 h2 (omega (arith, room_parts)),
        )
        (rw append-nil at (write_content xs [] s3 h3 (omega (arith, room_parts)))
          ∙ ap (done tt) (
              appended-appended s2 (unused ∷ []) xs
              ∙ appended-appended s1 second (unused ∷ xs)
              ∙ appended-appended s first (second ++ (unused ∷ xs))))

get_elem?-last_byte : (b : ℕ) (xs : List ℕ) → get_elem? (b ∷ xs) (length xs) ≡ some (last_byte b xs)
get_elem?-last_byte b [] = refl
get_elem?-last_byte b (x ∷ xs) = get_elem?-last_byte x xs

-- A node with the count and the bytes of a bit string.
module _ (node : Node) (xs : List ℕ) (unused : ℕ) (h : IsBitString xs unused)
    (c : Carries node id_bit_string (unused ∷ xs)) where
  take_bits-Carries : take_bits node unused ≡ ok (bit_string xs unused)
  unfolding take_bits
  take_bits-Carries =
      let count : node.data_length - 1 ≡ length xs = omega (arith, c.count) in rw (count, c.bytes)

  last-Carries : 0 < length xs → byte_at node (node.data_length - 1) ≡ some (last_byte 0 xs)
  unfolding byte_at
  last-Carries some_bytes =
      let count : node.data_length - 1 ≡ length xs = omega (arith, c.count) in
      rw (count, c.bytes) (last xs some_bytes)
    where
      last :
          (ys : List ℕ)
          → 0 < length ys
          → get_elem? (unused ∷ ys) (length ys) ≡ some (last_byte 0 ys)
      last [] h = absurd (omega arith)
      last (y ∷ ys) h = get_elem?-last_byte y ys

  check_unused-Carries : check_unused node unused ≡ ok (bit_string xs unused)
  unfolding check_unused
  check_unused-Carries = elim (Bool-cases (ltb 0 unused && ltb 1 node.data_length)) [
    | inl e ↦
        let last = last-Carries (ground (arith, c.count)) in
        rw (e, last, eq→== _ 0 h.zeros) take_bits-Carries
    | inr e ↦ rw e take_bits-Carries
  ]

  parse_bit_string-Carries : parse_bit_string node ≡ ok (bit_string xs unused)
  unfolding parse_bit_string
  parse_bit_string-Carries =
      let long : (node.data_length == 0) ≡ false = ne→== _ 0 (omega (arith, c.count)) in
      let bare : (node.data_length == 1 && not (unused == 0)) ≡ false =
        ground (arith, c.count, h.none_without) in
      expect-Carries node id_bit_string (unused ∷ xs) _ _ _ c
      ∙ rw (long, byte_at-drop node (unused ∷ xs) 0 c.bytes refl, le→ltb 7 unused h.few, bare)
          check_unused-Carries

-- A bit string that asn1_serialize_bit_string() writes to a fresh serializer is parsed as one node, and
-- asn1_parse_bit_string() gives the same bytes, their number and the same count of unused bits. The
-- unused bits are at most 7, none without a byte and zero in the last byte; the array can hold the
-- encoding and has a capacity below 2 ^ 63, and the result can hold a node.
pub parse_bit_string-serialize_bit_string :
    (xs : List ℕ) (unused : ℕ) (buffer : List ℕ) (capacity : ℕ) (rules : EncodingRules)
    (r : ParseResult)
    → IsBitString xs unused
    → HasSpace (length (encode (leaf id_bit_string (unused ∷ xs)))) buffer capacity r
    → Delivers
        (serialize_bit_string (bit_string xs unused))
        buffer
        capacity
        rules
        r
        (λ node. parse_bit_string node ≡ ok (bit_string xs unused))
parse_bit_string-serialize_bit_string xs unused buffer capacity rules r valid h =
    Delivers-mono (serialize_bit_string (bit_string xs unused)) buffer capacity rules r
      (λ node c. parse_bit_string-Carries node xs unused valid c)
      (written-Delivers (serialize_bit_string (bit_string xs unused)) id_bit_string (unused ∷ xs)
        buffer capacity rules r (omega arith) h.inside h.small h.room h.holds
        (serialize_bit_string-appended xs unused (serializer_init buffer capacity) []
          (serializer_init-Holds buffer capacity h.inside h.small) (omega (arith, h.room))))
