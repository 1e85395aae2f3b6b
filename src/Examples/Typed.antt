-- ===== src/Examples/Typed.antt =====
-- Bit strings and object identifiers written and read back, and readers on single nodes.
use asn.Base.{
  ◌-◌, false, true, ℕ, ◌≡◌, ◌^◌, ◌+◌, refl, some, List, [], ◌∷◌, length, arith, get_elem?, take,
}
use asn.Identifier.{Identifier, id_object_identifier, id_bit_string, id_integer}
use asn.Parser.Header.{der, ber}
use asn.Parser.Node.{Node}
use asn.Tree.{leaf, encode}
use asn.Encoding.{encode_length, encode_identifier, base128_octets}
use asn.Types.Access.{ok}
use asn.Types.Leaf.{Delivers}
use asn.Types.RoundTrip.{HasSpace}
use asn.Types.Safety.{IsInside, Reads}
use asn.Parser.Grammar.{number_from}
use asn.Types.Decoding.{pattern_of, is_negative, parse_int64-pattern_of, parse_uint64-number_from}
use asn.Types.Integer.{parse_int64, parse_uint64}
use asn.Types.BitString.{parse_bit_string, serialize_bit_string, bit_get, bit_count}
use asn.Types.BitString.RoundTrip.{IsBitString, bit_string, parse_bit_string-serialize_bit_string}
use asn.Types.BitString.Bits.{bits, bit_or_zero, bit_get-bits}
use asn.Types.BitString.Safety.{IsReadable, parse_bit_string-Reads}
use asn.Types.Oid.{parse_oid, serialize_oid, oid_equal}
use asn.Types.Oid.Text.{oid_to_string, to_string_loop, snprintf, decimal}
use asn.Types.Oid.Shown.{Shows, dotted, oid_to_string-Shows}
use asn.Types.Oid.Equality.{oid_equal-eq}
use asn.Types.Oid.Components.{octets}
use asn.Types.Oid.RoundTrip.{IsOid, parse_oid-serialize_oid}
use asn.Types.Oid.Safety.{IsParsed, parse_oid-Reads}
use asn.Examples.Samples.{blank, four_cells, zeros}

abbrev node_with : Identifier → List ℕ → Node
node_with id xs = record blank { identifier = id; data_bytes = some xs; data_length = length xs }

-- Ten bits: the last six are unused.
abbrev ten_bits : List ℕ
ten_bits = 0x80 ∷ 0x40 ∷ []

ten_bits-IsBitString : IsBitString ten_bits 6
ten_bits-IsBitString = record { few = omega arith; none_without = omega arith; zeros = refl }

ten_bits-HasSpace :
    HasSpace (length (encode (leaf id_bit_string (6 ∷ ten_bits)))) zeros 24 four_cells
unfolding encode encode_length encode_identifier
ten_bits-HasSpace = omega arith

parse_bit_string-serialize_bit_string_example :
    Delivers
      (serialize_bit_string (bit_string ten_bits 6))
      zeros
      24
      der
      four_cells
      (λ node. parse_bit_string node ≡ ok (bit_string ten_bits 6))
parse_bit_string-serialize_bit_string_example =
    parse_bit_string-serialize_bit_string ten_bits 6 zeros 24 der four_cells ten_bits-IsBitString
      ten_bits-HasSpace

bit_get-bits_example :
    (bit_get (bit_string ten_bits 6) 9 ≡ ok (bit_or_zero (get_elem? (bits (take 2 ten_bits)) 9)))
    × (bit_count (bit_string ten_bits 6) + 6 ≡ length (bits (take 2 ten_bits)))
bit_get-bits_example =
    bit_get-bits (bit_string ten_bits 6) 9 (omega arith) (omega arith) (omega arith)

-- 1.2.840.113549
abbrev rsa_tail : List ℕ
rsa_tail = 840 ∷ 113549 ∷ []

rsa-IsOid : IsOid 1 2 rsa_tail
unfolding base128_octets
rsa-IsOid = record {
  root = omega arith;
  second = omega arith;
  words = omega arith;
  count = omega arith;
  size = omega arith;
}

rsa-HasSpace :
    HasSpace
      (length (encode (leaf id_object_identifier (42 ∷ octets rsa_tail))))
      zeros
      24
      four_cells
unfolding encode encode_length encode_identifier base128_octets
rsa-HasSpace = omega arith

parse_oid-serialize_oid_example :
    Delivers
      (serialize_oid (1 ∷ 2 ∷ rsa_tail))
      zeros
      24
      ber
      four_cells
      (λ node. parse_oid node ≡ ok (1 ∷ 2 ∷ rsa_tail))
parse_oid-serialize_oid_example =
    parse_oid-serialize_oid 1 2 rsa_tail zeros 24 ber four_cells rsa-IsOid rsa-HasSpace

abbrev three_bytes_inside : (id : Identifier) → IsInside (node_with id (0x81 ∷ 0x34 ∷ 0x03 ∷ []))
three_bytes_inside id = record {
  array = 0x81 ∷ 0x34 ∷ 0x03 ∷ [];
  found = refl;
  enough = omega arith;
  octets = (omega arith, (omega arith, (omega arith, tt)));
}

parse_oid-Reads_example :
    Reads IsParsed (parse_oid (node_with id_object_identifier (0x81 ∷ 0x34 ∷ 0x03 ∷ [])))
parse_oid-Reads_example =
    parse_oid-Reads (node_with id_object_identifier (0x81 ∷ 0x34 ∷ 0x03 ∷ []))
      (three_bytes_inside id_object_identifier)

bits-IsInside : IsInside (node_with id_bit_string (6 ∷ ten_bits))
bits-IsInside = record {
  array = 6 ∷ ten_bits;
  found = refl;
  enough = omega arith;
  octets = (omega arith, (omega arith, (omega arith, tt)));
}

parse_bit_string-Reads_example :
    Reads
      (IsReadable (node_with id_bit_string (6 ∷ ten_bits)))
      (parse_bit_string (node_with id_bit_string (6 ∷ ten_bits)))
parse_bit_string-Reads_example =
    parse_bit_string-Reads (node_with id_bit_string (6 ∷ ten_bits)) bits-IsInside (omega arith)

-- "1.2.840" does not fit six characters: "1.2.8" with its zero does.
oid_to_string-Shows_example :
    Shows (dotted (1 ∷ 2 ∷ 840 ∷ [])) 6 (oid_to_string (1 ∷ 2 ∷ 840 ∷ []) zeros 6)
oid_to_string-Shows_example =
    oid_to_string-Shows (1 ∷ 2 ∷ 840 ∷ []) zeros 6 (omega arith) (omega arith) (omega arith)

cut_text :
    oid_to_string (1 ∷ 2 ∷ 840 ∷ 7 ∷ []) (0 ∷ 0 ∷ 0 ∷ 0 ∷ 0 ∷ 0 ∷ []) 6
    ≡ some (49 ∷ 46 ∷ 50 ∷ 46 ∷ 56 ∷ 0 ∷ [], 7)
unfolding oid_to_string to_string_loop snprintf decimal
cut_text = refl

oid_equal-eq_example :
    (oid_equal rsa_tail rsa_tail ≡ true → rsa_tail ≡ rsa_tail)
    × (rsa_tail ≡ rsa_tail → oid_equal rsa_tail rsa_tail ≡ true)
oid_equal-eq_example = oid_equal-eq rsa_tail rsa_tail

-- The bytes 81 34 03 are -8309757.
parse_int64-pattern_of_example :
    Reads
      (λ v. v ≡ pattern_of (take 3 (0x81 ∷ 0x34 ∷ 0x03 ∷ [])))
      (parse_int64 (node_with id_integer (0x81 ∷ 0x34 ∷ 0x03 ∷ [])))
parse_int64-pattern_of_example =
    parse_int64-pattern_of (node_with id_integer (0x81 ∷ 0x34 ∷ 0x03 ∷ []))
      (three_bytes_inside id_integer)

pattern_negative : pattern_of (0x81 ∷ 0x34 ∷ 0x03 ∷ []) ≡ 2 ^ 64 - 8309757
pattern_negative = refl

abbrev two_bytes_inside : IsInside (node_with id_integer (0x01 ∷ 0x34 ∷ []))
two_bytes_inside = record {
  array = 0x01 ∷ 0x34 ∷ [];
  found = refl;
  enough = omega arith;
  octets = (omega arith, (omega arith, tt));
}

parse_uint64-number_from_example :
    Reads
      (λ v.
        (v ≡ number_from 0 (take 2 (0x01 ∷ 0x34 ∷ [])))
        × (is_negative (take 2 (0x01 ∷ 0x34 ∷ [])) ≡ false))
      (parse_uint64 (node_with id_integer (0x01 ∷ 0x34 ∷ [])))
parse_uint64-number_from_example =
    parse_uint64-number_from (node_with id_integer (0x01 ∷ 0x34 ∷ [])) two_bytes_inside
