-- ===== src/Examples/Values.antt =====
-- Values of the basic types, written and read back.
use asn.Base.{ℕ, ◌≡◌, ◌-◌, ◌^◌, refl, true, some, List, [], ◌∷◌, length, arith}
use asn.Identifier.{id_octet_string}
use asn.Parser.Header.{der, ber}
use asn.Tree.{leaf, encode}
use asn.Encoding.{encode_length, encode_identifier}
use asn.Types.Access.{ok}
use asn.Types.Boolean.{parse_boolean, serialize_boolean, parse_null, serialize_null}
use asn.Types.Strings.{parse_octet_string, serialize_octet_string}
use asn.Types.Integer.{
  parse_int64, serialize_int64, parse_uint64, serialize_uint64, signed_octets, unsigned_octets,
}
use asn.Types.Leaf.{Delivers}
use asn.Types.RoundTrip.{
  HasSpace, parse_int64-serialize_int64, parse_uint64-serialize_uint64,
  parse_boolean-serialize_boolean, parse_octet_string-serialize_octet_string,
  parse_null-serialize_null,
}
use asn.Examples.Samples.{four_cells, zeros}

minus_129 : signed_octets (2 ^ 64 - 129) ≡ 0xFF ∷ 0x7F ∷ []
unfolding signed_octets
minus_129 = refl

plus_200 : unsigned_octets 200 ≡ 0 ∷ 200 ∷ []
unfolding unsigned_octets
plus_200 = refl

parse_int64-serialize_int64_example :
    Delivers
      (serialize_int64 (2 ^ 64 - 129))
      zeros
      24
      der
      four_cells
      (λ node. parse_int64 node ≡ ok (2 ^ 64 - 129))
parse_int64-serialize_int64_example =
    parse_int64-serialize_int64 (2 ^ 64 - 129) zeros 24 der four_cells (omega arith) (omega arith)

parse_uint64-serialize_uint64_example :
    Delivers (serialize_uint64 200) zeros 24 ber four_cells (λ node. parse_uint64 node ≡ ok 200)
parse_uint64-serialize_uint64_example =
    parse_uint64-serialize_uint64 200 zeros 24 ber four_cells (omega arith) (omega arith)

parse_boolean-serialize_boolean_example :
    Delivers
      (serialize_boolean true)
      zeros
      24
      der
      four_cells
      (λ node. parse_boolean node der ≡ ok true)
parse_boolean-serialize_boolean_example =
    parse_boolean-serialize_boolean true zeros 24 der four_cells (omega arith)

abbrev three : List ℕ
three = 1 ∷ 2 ∷ 3 ∷ []

three-HasSpace : HasSpace (length (encode (leaf id_octet_string three))) zeros 24 four_cells
unfolding encode encode_length encode_identifier
three-HasSpace = omega arith

parse_octet_string-serialize_octet_string_example :
    Delivers
      (serialize_octet_string three 3)
      zeros
      24
      der
      four_cells
      (λ node. parse_octet_string node ≡ ok (some three, 3))
parse_octet_string-serialize_octet_string_example =
    parse_octet_string-serialize_octet_string three zeros 24 der four_cells three-HasSpace

parse_null-serialize_null_example :
    Delivers serialize_null zeros 24 der four_cells (λ node. parse_null node ≡ ok tt)
parse_null-serialize_null_example = parse_null-serialize_null zeros 24 der four_cells (omega arith)
