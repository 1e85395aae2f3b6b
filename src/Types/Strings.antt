-- ===== src/Types/Strings.antt =====
-- asn1_types.c: OCTET STRING and the string types.
use asn.Base.{ℕ, not, Option, if◌then◌else◌}
use asn.Error.{Op, invalid_object}
use asn.Identifier.{Identifier, id_octet_string}
use asn.Buffer.{Pointer}
use asn.Parser.Node.{Node}
use asn.Serializer.{Serializer, serialize_primitive}
use asn.Types.Access.{Parsed, ok, error, expect, is_primitive}

-- asn1_parse_octet_string(): the pointer and the length.
unfoldable pub parse_octet_string : Node → Parsed (Option Pointer × ℕ)
unfolding expect
parse_octet_string node =
    expect node id_octet_string "Expected OCTET STRING" "Constructed OCTET STRING not supported"
      (ok (node.data_bytes, node.data_length))

-- asn1_serialize_octet_string()
unfoldable pub serialize_octet_string : Pointer → ℕ → Op Serializer (Unit {0})
unfolding serialize_primitive
serialize_octet_string bytes len = serialize_primitive id_octet_string bytes len

-- asn1_parse_string()
unfoldable pub parse_string : Node → Parsed (Option Pointer × ℕ)
parse_string node =
    if not (is_primitive node.content_type)
    then error invalid_object "Constructed strings not supported"
    else ok (node.data_bytes, node.data_length)

-- asn1_serialize_string()
unfoldable pub serialize_string : Identifier → Pointer → ℕ → Op Serializer (Unit {0})
unfolding serialize_primitive
serialize_string id str len = serialize_primitive id str len
