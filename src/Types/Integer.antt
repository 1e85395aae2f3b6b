-- ===== src/Types/Integer.antt =====
-- asn1_types.c: INTEGER. An `int64_t` is its bit pattern, a number below 2 ^ 64.
use asn.Base.{
  ℕ, zero, suc, ◌+◌, ◌-◌, ◌/◌, ◌%◌, ◌^◌, Bool, not, ◌&&◌, ◌||◌, Option, List, [], ◌∷◌, length, ltb,
  ◌==◌, if◌then◌else◌, access, bind, bit_and,
}
use asn.Error.{Op, invalid_integer_encoding}
use asn.Identifier.{id_integer}
use asn.Buffer.{Pointer}
use asn.Parser.Header.{push_octet}
use asn.Parser.Node.{Node}
use asn.Serializer.{Serializer, serialize_primitive}
use asn.Types.Access.{Parsed, ok, error, byte_at, expect}

-- The outputs of asn1_parse_integer_bytes().
pub record IntegerBytes : Type 0 where
  pub bytes : Option Pointer
  pub length : ℕ
  pub negative : Bool

-- asn1_parse_integer_bytes()
unfoldable pub parse_integer_bytes : Node → Parsed IntegerBytes
unfolding expect byte_at
parse_integer_bytes node = expect node id_integer "Expected INTEGER" "INTEGER must be primitive" (
    if node.data_length == 0
    then error invalid_integer_encoding "INTEGER cannot be empty"
    else bind (access (byte_at node 0) tt) (λ first _. ok (record {
      bytes = node.data_bytes;
      length = node.data_length;
      negative = not (bit_and first 0x80 == 0);
    })))

-- `for (i = 0; i < length; i++) result = (result << 8) | bytes[i];` from index `i`, `left` rounds
-- left. On the `int64_t` this is two's complement, the shift of a negative number included.
unfoldable pub integer_loop : Node → ℕ → ℕ → ℕ → Parsed ℕ
unfolding byte_at
integer_loop node zero i result = ok result
integer_loop node (suc left) i result =
    bind (access (byte_at node i) tt)
      (λ byte _. integer_loop node left (i + 1) (push_octet result byte))

-- The test for a non-minimal encoding, on the first two bytes.
abbrev pub is_padded : ℕ → ℕ → Bool
is_padded first second =
    first == 0x00 && bit_and second 0x80 == 0 || first == 0xFF && not (bit_and second 0x80 == 0)

unfoldable pub check_padding : Node → ℕ → Parsed (Unit {0})
unfolding byte_at
check_padding node len =
    if ltb 1 len
    then bind (access (byte_at node 0) tt) (λ first _.
      bind (access (byte_at node 1) tt) (λ second _.
        if is_padded first second
        then error invalid_integer_encoding "Non-minimal INTEGER encoding"
        else ok tt))
    else ok tt

-- asn1_parse_int64()
unfoldable pub parse_int64 : Node → Parsed ℕ
unfolding parse_integer_bytes check_padding integer_loop
parse_int64 node = bind (parse_integer_bytes node) λ b _.
    (if ltb 8 b.length
      then error invalid_integer_encoding "INTEGER too large for int64"
      else bind (check_padding node b.length)
          (λ _ _. integer_loop node b.length 0 (if b.negative then 2 ^ 64 - 1 else 0)))

-- asn1_parse_uint64()
unfoldable pub parse_uint64 : Node → Parsed ℕ
unfolding parse_integer_bytes integer_loop
parse_uint64 node = bind (parse_integer_bytes node) λ b _.
    (if b.negative
      then error invalid_integer_encoding "Negative INTEGER cannot be parsed as unsigned"
      else bind (access (byte_at node 0) tt) (λ first _.
        if ltb 9 b.length || b.length == 9 && not (first == 0)
        then error invalid_integer_encoding "INTEGER too large for uint64"
        else integer_loop node b.length 0 0))

-- `(uint8_t)(value >> shift)` with `shift = 8 * k`
abbrev pub octet : ℕ → ℕ → ℕ
octet value k = value / 256 ^ k % 256

-- `for (shift = 56; shift > 0; shift -= 8) if ((value >> shift) != 0) break;` with `shift = 8 * k`
unfoldable pub top_octet : ℕ → ℕ → ℕ
top_octet zero value = zero
top_octet (suc k) value = if not (value / 256 ^ suc k == 0) then suc k else top_octet k value

-- The loop that skips leading 0xFF bytes of a negative number where the next byte has its top bit set.
unfoldable pub top_negative : ℕ → ℕ → ℕ
top_negative zero value = zero
top_negative (suc k) value =
    if octet value (suc k) == 0xFF && not (bit_and (octet value k) 0x80 == 0)
    then top_negative k value
    else suc k

-- `for (; shift >= 0; shift -= 8) buf[len++] = (uint8_t)(value >> shift);` with `shift = 8 * k`
unfoldable pub octets_from : ℕ → ℕ → List ℕ
octets_from zero value = octet value zero ∷ []
octets_from (suc k) value = octet value (suc k) ∷ octets_from k value

-- The bytes of a number that is not negative: a zero goes in front where the top bit is set.
unfoldable pub unsigned_octets : ℕ → List ℕ
unfolding top_octet octets_from
unsigned_octets value =
    let k = top_octet 7 value in
    if not (bit_and (value / 256 ^ k) 0x80 == 0)
    then 0x00 ∷ octets_from k value
    else octets_from k value

-- The bytes of asn1_serialize_int64(); the pattern is of a negative number from 2 ^ 63 on.
unfoldable pub signed_octets : ℕ → List ℕ
unfolding unsigned_octets top_negative
signed_octets value =
    if ltb value (2 ^ 63) then unsigned_octets value else octets_from (top_negative 7 value) value

-- asn1_serialize_int64()
unfoldable pub serialize_int64 : ℕ → Op Serializer (Unit {0})
unfolding signed_octets serialize_primitive
serialize_int64 value =
    let buf = signed_octets value in serialize_primitive id_integer buf (length buf)

-- asn1_serialize_uint64(); its test `len == 0` never holds, since the loop writes a byte.
unfoldable pub serialize_uint64 : ℕ → Op Serializer (Unit {0})
unfolding unsigned_octets serialize_primitive
serialize_uint64 value =
    let buf = unsigned_octets value in serialize_primitive id_integer buf (length buf)

-- asn1_serialize_integer_bytes()
unfoldable pub serialize_integer_bytes : Pointer → ℕ → Op Serializer (Unit {0})
unfolding serialize_primitive
serialize_integer_bytes bytes len = serialize_primitive id_integer bytes len
