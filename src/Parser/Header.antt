-- ===== src/Parser/Header.antt =====
-- asn1_parser.c: identifiers and lengths. The state is the reader.
use asn.Base.{
  ℕ, zero, suc, ◌+◌, ◌*◌, ◌/◌, ◌%◌, ◌^◌, Bool, true, false, not, ltb, leb, ◌==◌, if◌then◌else◌,
  bit_and, bit_or, return, ◌>>=◌,
}
use asn.Error.{Op, truncated_field, invalid_object, unsupported_length}
use asn.Identifier.{Identifier, TagClass, class_of}
use asn.Buffer.{Buffer, fail, need_byte}

pub data EncodingRules : Type 0 where
  ber der : EncodingRules

abbrev pub is_der : EncodingRules → Bool
is_der ber = false
is_der der = true

-- `value = (value << 7) | (byte & 0x7F)` on `uint32_t`
abbrev pub push_group : ℕ → ℕ → ℕ
push_group value byte = bit_or (value * 2 ^ 7 % 2 ^ 32) (bit_and byte 0x7F)

-- The loop of parse_base128_uint() with `left = 5 - count` rounds left: the test `count >= 5`
-- stands behind the read.
unfoldable pub base128_loop : ℕ → ℕ → Op Buffer ℕ
unfolding need_byte
base128_loop zero value = do
  byte ← need_byte truncated_field "Truncated base-128 integer"
  fail invalid_object "Tag number too large"
base128_loop (suc left) value = do
  byte ← need_byte truncated_field "Truncated base-128 integer"
  let value' = push_group value byte
  let more = base128_loop left value'
  if bit_and byte 0x80 == 0 then return value' else more

unfoldable pub parse_base128_uint : Op Buffer ℕ
unfolding base128_loop
parse_base128_uint = base128_loop 5 0

-- The long form of parse_identifier(), behind its first byte.
unfoldable pub long_tag : TagClass → Bool → Op Buffer (Identifier × Bool)
unfolding parse_base128_uint
long_tag tag_class constructed = do
  tag_number ← parse_base128_uint
  if ltb tag_number 0x1F
      then fail invalid_object "Tag incorrectly encoded in long form"
      else return (record { tag_number = tag_number; tag_class = tag_class }, constructed)

unfoldable pub parse_identifier : Op Buffer (Identifier × Bool)
unfolding long_tag
parse_identifier = do
  first_byte ← need_byte truncated_field "Truncated identifier"
  let tag_class = class_of (first_byte / 2 ^ 6)
  let constructed = not (bit_and first_byte 0x20 == 0)
  let tag_bits = bit_and first_byte 0x1F
  if tag_bits == 0x1F
      then long_tag tag_class constructed
      else return (record { tag_number = tag_bits; tag_class = tag_class }, constructed)

-- asn1_length_t: `value` counts only where `type` is ASN1_LENGTH_DEFINITE.
pub data Length : Type 0 where
  definite : ℕ → Length
  indefinite : Length

-- `value = (value << 8) | byte` on `size_t`
abbrev pub push_octet : ℕ → ℕ → ℕ
push_octet value byte = bit_or (value * 2 ^ 8 % 2 ^ 64) byte

-- The `for` loop of parse_length() with `left` rounds left.
unfoldable pub length_loop : ℕ → ℕ → Op Buffer ℕ
unfolding need_byte
length_loop zero value = return value
length_loop (suc left) value = do
  byte ← need_byte truncated_field "Truncated length field"
  length_loop left (push_octet value byte)

-- `while (temp > 0) { required_bytes++; temp >>= 8; }` for at most `rounds` rounds.
unfoldable pub required_loop : ℕ → ℕ → ℕ → ℕ
required_loop zero temp required_bytes = required_bytes
required_loop (suc rounds) temp required_bytes =
    if ltb 0 temp then required_loop rounds (temp / 2 ^ 8) (required_bytes + 1) else required_bytes

-- What DER asks of the long form; a `size_t` takes at most 8 rounds.
unfoldable pub check_minimal : EncodingRules → ℕ → ℕ → Op Buffer Length
unfolding required_loop
check_minimal rules num_bytes value =
    if is_der rules
    then (if leb value 0x7F
        then fail unsupported_length "Length should be encoded in short form"
        else (if ltb (required_loop 8 value 0) num_bytes
            then fail unsupported_length "Length encoded with too many bytes"
            else return (definite value)))
    else return (definite value)

-- The long form of parse_length(), behind its first byte; `sizeof(size_t)` is 8.
unfoldable pub long_length : EncodingRules → ℕ → Op Buffer Length
unfolding length_loop check_minimal
long_length rules num_bytes =
    if num_bytes == 0
    then fail invalid_object "Invalid length encoding"
    else (if ltb 8 num_bytes
        then fail unsupported_length "Length too large"
        else (do value ← length_loop num_bytes 0; check_minimal rules num_bytes value))

-- What parse_length() does with its first byte.
unfoldable pub length_of : EncodingRules → ℕ → Op Buffer Length
unfolding long_length
length_of rules first_byte =
    if first_byte == 0x80
    then (if is_der rules
        then fail unsupported_length "Indefinite length not allowed in DER"
        else return indefinite)
    else (if bit_and first_byte 0x80 == 0
        then return (definite first_byte)
        else long_length rules (bit_and first_byte 0x7F))

unfoldable pub parse_length : EncodingRules → Op Buffer Length
unfolding length_of
parse_length rules = do
  first_byte ← need_byte truncated_field "Truncated length"
  length_of rules first_byte
