-- ===== src/Examples/Oids.antt =====
-- Runs on object identifiers and bit strings.
use asn.Base.{ℕ, ◌≡◌, refl, some, List, [], ◌∷◌, length, done, true}
use asn.Identifier.{Identifier, id_object_identifier, id_bit_string}
use asn.Encoding.{encode_identifier, encode_length}
use asn.Parser.Node.{Node}
use asn.Serializer.{serializer_init}
use asn.Types.Access.{ok}
use asn.Types.Oid.{parse_oid, serialize_oid}
use asn.Types.BitString.{BitString, parse_bit_string, bit_count, bit_get}
use asn.Examples.Samples.{blank, zeros}

abbrev node_of : Identifier → List ℕ → Node
node_of id xs = record blank { identifier = id; data_bytes = some xs; data_length = length xs }

-- 1.2.840.113549
abbrev rsa : List ℕ
rsa = 0x2a ∷ 0x86 ∷ 0x48 ∷ 0x86 ∷ 0xf7 ∷ 0x0d ∷ []

parse_rsa : parse_oid (node_of id_object_identifier rsa) ≡ ok (1 ∷ 2 ∷ 840 ∷ 113549 ∷ [])
unfolding parse_oid
parse_rsa = refl

serialize_rsa :
    serialize_oid (1 ∷ 2 ∷ 840 ∷ 113549 ∷ []) (serializer_init zeros 24)
    ≡ done tt (record {
      buffer =
          6 ∷ 6 ∷ 0x2a ∷ 0x86 ∷ 0x48 ∷ 0x86 ∷ 0xf7 ∷ 0x0d ∷ 0 ∷ 0 ∷ 0 ∷ 0 ∷ 0 ∷ 0 ∷ 0 ∷ 0 ∷ 0 ∷ 0
          ∷ 0 ∷ 0 ∷ 0 ∷ 0 ∷ 0 ∷ 0 ∷ [];
      length = 8;
      capacity = 24;
    })
unfolding serialize_oid encode_identifier encode_length
serialize_rsa = refl

-- The bytes of 2.100.3 (0x81 0x34 0x03) are read as 3.9.52.3, and those of 2.47 (0x7f) as 3.7.
parse_arc_2 :
    parse_oid (node_of id_object_identifier (0x81 ∷ 0x34 ∷ 0x03 ∷ [])) ≡ ok (3 ∷ 9 ∷ 52 ∷ 3 ∷ [])
unfolding parse_oid
parse_arc_2 = refl

parse_arc_2_short : parse_oid (node_of id_object_identifier (0x7f ∷ [])) ≡ ok (3 ∷ 7 ∷ [])
unfolding parse_oid
parse_arc_2_short = refl

-- Ten bits, of which the first is set: the count of unused bits is 6.
abbrev ten_bits : BitString
ten_bits = record { bytes = 0x80 ∷ 0x40 ∷ []; byte_count = 2; unused_bits = 6 }

parse_ten_bits : parse_bit_string (node_of id_bit_string (6 ∷ 0x80 ∷ 0x40 ∷ [])) ≡ ok ten_bits
unfolding parse_bit_string
parse_ten_bits = refl

count_ten_bits : bit_count ten_bits ≡ 10
unfolding bit_count
count_ten_bits = refl

get_ten_bits : bit_get ten_bits 9 ≡ ok true
unfolding bit_get
get_ten_bits = refl
