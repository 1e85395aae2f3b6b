-- ===== src/Types/Boolean.antt =====
-- asn1_types.c: BOOLEAN and NULL.
use asn.Base.{ℕ, Bool, not, ◌&&◌, ◌||◌, [], ◌∷◌, ◌==◌, if◌then◌else◌, access, bind}
use asn.Error.{Op, invalid_boolean, invalid_object}
use asn.Identifier.{id_boolean, id_null}
use asn.Parser.Header.{EncodingRules, is_der}
use asn.Parser.Node.{Node}
use asn.Serializer.{Serializer, serialize_primitive}
use asn.Types.Access.{Parsed, ok, error, byte_at, expect}

-- asn1_parse_boolean()
unfoldable pub parse_boolean : Node → EncodingRules → Parsed Bool
unfolding expect byte_at
parse_boolean node rules = expect node id_boolean "Expected BOOLEAN" "BOOLEAN must be primitive" (
    if not (node.data_length == 1)
    then error invalid_boolean "BOOLEAN must be exactly 1 byte"
    else bind (access (byte_at node 0) tt) (λ byte _.
      if is_der rules && not (byte == 0x00 || byte == 0xFF)
      then error invalid_boolean "DER BOOLEAN must be 0x00 or 0xFF"
      else ok (not (byte == 0x00))))

-- The byte of asn1_serialize_boolean().
abbrev pub boolean_octet : Bool → ℕ
boolean_octet value = if value then 0xFF else 0x00

-- asn1_serialize_boolean()
unfoldable pub serialize_boolean : Bool → Op Serializer (Unit {0})
unfolding serialize_primitive
serialize_boolean value = serialize_primitive id_boolean (boolean_octet value ∷ []) 1

-- asn1_parse_null()
unfoldable pub parse_null : Node → Parsed (Unit {0})
unfolding expect
parse_null node = expect node id_null "Expected NULL" "NULL must be primitive" (
    if not (node.data_length == 0)
    then error invalid_object "NULL must have zero length"
    else ok tt)

-- asn1_serialize_null(): the pointer is NULL.
unfoldable pub serialize_null : Op Serializer (Unit {0})
unfolding serialize_primitive
serialize_null = serialize_primitive id_null [] 0
