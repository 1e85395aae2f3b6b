-- ===== src/Types/RoundTrip.antt =====
-- asn1_types.c with the serializer and the parser: a value that is written is read back.
use asn.Base.{
  ℕ, ◌+◌, ◌^◌, ◌≤◌, ◌<◌, ◌≡◌, refl, ◌∙◌, Bool, true, false, some, List, [], ◌∷◌, length,
  if◌then◌else◌, not, ◌&&◌, ◌||◌, ◌==◌, arith,
}
use asn.Identifier.{id_integer, id_boolean, id_null, id_octet_string, Identifier}
use asn.Encoding.{encode_identifier, encode_length}
use asn.Parser.Header.{EncodingRules, der, ber, is_der}
use asn.Parser.Node.{Node, ParseResult}
use asn.Parser.RoundTrip.{CanHold}
use asn.Serializer.{serialize_primitive}
use asn.Tree.{leaf, encode}
use asn.Types.Access.{ok, error}
use asn.Error.{invalid_boolean}
use asn.Types.Boolean.{parse_boolean, serialize_boolean, boolean_octet, parse_null, serialize_null}
use asn.Types.Strings.{parse_octet_string, serialize_octet_string}
use asn.Types.Integer.{
  parse_int64, serialize_int64, parse_uint64, serialize_uint64, signed_octets, unsigned_octets,
  top_octet, top_negative,
}
use asn.Types.Octets.{length-octets_from, byte_at-drop}
use asn.Types.TopOctet.{le-top_octet, le-top_negative}
use asn.Types.IntegerRun.{parse_int64-signed, parse_uint64-unsigned}
use asn.Types.Leaf.{Carries, Delivers, Delivers-mono, leaf-Delivers, expect-Carries}

-- The two loops of the short forms write two bytes around the content.
length-encode_small :
    (id : Identifier) (xs : List ℕ)
    → id.tag_number < 31
    → length xs ≤ 127
    → length (encode (leaf id xs)) ≡ 2 + length xs
unfolding encode encode_identifier encode_length
length-encode_small id xs short few = ground arith

length-unsigned_octets : (value : ℕ) → length (unsigned_octets value) ≤ 9
unfolding unsigned_octets
length-unsigned_octets value =
    ground (arith, length-octets_from (top_octet 7 value) value, le-top_octet 7 value)

length-signed_octets : (value : ℕ) → length (signed_octets value) ≤ 9
unfolding signed_octets
length-signed_octets value = ground (
  arith,
  length-unsigned_octets value,
  length-octets_from (top_negative 7 value) value,
  le-top_negative 7 value,
)

-- The caller's arrays: `capacity` bytes, of which `n` are needed, and one node.
pub record HasSpace (n : ℕ) (buffer : List ℕ) (capacity : ℕ) (r : ParseResult) : Type 0 where
  pub inside : capacity ≤ length buffer
  pub small : capacity < 2 ^ 63
  pub room : n ≤ capacity
  pub holds : CanHold r 1

-- What is written by one call is a node of the tag with the data `xs`.
primitive-Delivers :
    (id : Identifier) (xs buffer : List ℕ) (capacity : ℕ) (rules : EncodingRules) (r : ParseResult)
    (n : ℕ) {P : Node → Type 0}
    → id.tag_number < 31
    → length xs ≤ 127
    → 2 + length xs ≤ n
    → HasSpace n buffer capacity r
    → ((node : Node) → Carries node id xs → P node)
    → Delivers (serialize_primitive id xs (length xs)) buffer capacity rules r P
primitive-Delivers id xs buffer capacity rules r n short few enough h k =
    Delivers-mono (serialize_primitive id xs (length xs)) buffer capacity rules r k (
      leaf-Delivers id xs buffer capacity rules r (omega arith) h.inside h.small
        (omega (arith, length-encode_small id xs short few, h.room)) h.holds)

-- A 64-bit pattern that asn1_serialize_int64() writes to a fresh serializer is parsed as one node,
-- under both rules, and asn1_parse_int64() reads the same pattern off that node. The array has eleven
-- bytes at least and a capacity below 2 ^ 63, and the result can hold a node.
pub parse_int64-serialize_int64 :
    (value : ℕ) (buffer : List ℕ) (capacity : ℕ) (rules : EncodingRules) (r : ParseResult)
    → value < 2 ^ 64
    → HasSpace 11 buffer capacity r
    → Delivers (serialize_int64 value) buffer capacity rules r (λ node. parse_int64 node ≡ ok value)
unfolding serialize_int64
parse_int64-serialize_int64 value buffer capacity rules r small h =
    let few = length-signed_octets value in
    primitive-Delivers id_integer (signed_octets value) buffer capacity rules r 11 (omega arith)
      (omega (arith, few)) (omega (arith, few)) h (λ node. parse_int64-signed node value small)

-- A `uint64_t` that asn1_serialize_uint64() writes to a fresh serializer is parsed as one node, under
-- both rules, and asn1_parse_uint64() reads the same number off that node. The array has eleven bytes
-- at least and a capacity below 2 ^ 63, and the result can hold a node.
pub parse_uint64-serialize_uint64 :
    (value : ℕ) (buffer : List ℕ) (capacity : ℕ) (rules : EncodingRules) (r : ParseResult)
    → value < 2 ^ 64
    → HasSpace 11 buffer capacity r
    → Delivers
        (serialize_uint64 value)
        buffer
        capacity
        rules
        r
        (λ node. parse_uint64 node ≡ ok value)
unfolding serialize_uint64
parse_uint64-serialize_uint64 value buffer capacity rules r small h =
    let few = length-unsigned_octets value in
    primitive-Delivers id_integer (unsigned_octets value) buffer capacity rules r 11 (omega arith)
      (omega (arith, few)) (omega (arith, few)) h (λ node. parse_uint64-unsigned node value small)

parse_boolean-octet :
    (byte : ℕ) (rules : EncodingRules) (node : Node)
    → Carries node id_boolean (byte ∷ [])
    → parse_boolean node rules ≡ (
        if is_der rules && not (byte == 0x00 || byte == 0xFF)
        then error invalid_boolean "DER BOOLEAN must be 0x00 or 0xFF"
        else ok (not (byte == 0x00)))
unfolding parse_boolean
parse_boolean-octet byte rules node c =
    expect-Carries node id_boolean (byte ∷ []) _ _ _ c
    ∙ rw (c.count, byte_at-drop node _ 0 c.bytes refl)

parse_boolean-Carries :
    (value : Bool) (rules : EncodingRules) (node : Node)
    → Carries node id_boolean (boolean_octet value ∷ [])
    → parse_boolean node rules ≡ ok value
parse_boolean-Carries true ber node c = parse_boolean-octet 0xFF ber node c
parse_boolean-Carries true der node c = parse_boolean-octet 0xFF der node c
parse_boolean-Carries false ber node c = parse_boolean-octet 0x00 ber node c
parse_boolean-Carries false der node c = parse_boolean-octet 0x00 der node c

-- A Boolean that asn1_serialize_boolean() writes to a fresh serializer is parsed as one node, and
-- asn1_parse_boolean() reads it off that node, both under the same rules. The array has three bytes
-- at least and a capacity below 2 ^ 63, and the result can hold a node.
pub parse_boolean-serialize_boolean :
    (value : Bool) (buffer : List ℕ) (capacity : ℕ) (rules : EncodingRules) (r : ParseResult)
    → HasSpace 3 buffer capacity r
    → Delivers
        (serialize_boolean value)
        buffer
        capacity
        rules
        r
        (λ node. parse_boolean node rules ≡ ok value)
unfolding serialize_boolean
parse_boolean-serialize_boolean value buffer capacity rules r h =
    primitive-Delivers id_boolean (boolean_octet value ∷ []) buffer capacity rules r 3 (omega arith)
      (omega arith) (omega arith) h (parse_boolean-Carries value rules)

-- A string of bytes that asn1_serialize_octet_string() writes to a fresh serializer is parsed as one
-- node, and asn1_parse_octet_string() gives a pointer to the same bytes in the input and their
-- number. The array can hold the encoding and has a capacity below 2 ^ 63, and the result can hold a
-- node.
pub parse_octet_string-serialize_octet_string :
    (xs buffer : List ℕ) (capacity : ℕ) (rules : EncodingRules) (r : ParseResult)
    → HasSpace (length (encode (leaf id_octet_string xs))) buffer capacity r
    → Delivers
        (serialize_octet_string xs (length xs))
        buffer
        capacity
        rules
        r
        (λ node. parse_octet_string node ≡ ok (some xs, length xs))
unfolding serialize_octet_string parse_octet_string
parse_octet_string-serialize_octet_string xs buffer capacity rules r h =
    Delivers-mono (serialize_octet_string xs (length xs)) buffer capacity rules r
      (λ node c. expect-Carries node id_octet_string xs _ _ _ c ∙ rw (c.bytes, c.count))
      (leaf-Delivers id_octet_string xs buffer capacity rules r (omega arith) h.inside h.small
        h.room h.holds)

-- What asn1_serialize_null() writes to a fresh serializer is parsed as one node, and
-- asn1_parse_null() accepts that node. The array has two bytes at least and a capacity below 2 ^ 63,
-- and the result can hold a node.
pub parse_null-serialize_null :
    (buffer : List ℕ) (capacity : ℕ) (rules : EncodingRules) (r : ParseResult)
    → HasSpace 2 buffer capacity r
    → Delivers serialize_null buffer capacity rules r (λ node. parse_null node ≡ ok tt)
unfolding serialize_null parse_null
parse_null-serialize_null buffer capacity rules r h =
    primitive-Delivers id_null [] buffer capacity rules r 2 (omega arith) (omega arith)
      (omega arith) h (λ node c. expect-Carries node id_null [] _ _ _ c ∙ rw c.count)
