-- ===== src/Types/BitString.antt =====
-- asn1_types.c and asn1_types.h: BIT STRING.
pub mod RoundTrip
pub mod Bits
pub mod Safety
use asn.Base.{
  ℕ, ◌-◌, ◌*◌, ◌/◌, ◌%◌, ◌^◌, Bool, false, not, ◌&&◌, Option, none, some, [], ◌∷◌, length, drop,
  get_elem?, ltb, leb, ◌==◌, if◌then◌else◌, access, bind, bit_and, add_size, sub_size, size_mod,
  return, ◌>>◌,
}
use asn.Error.{Op, invalid_object}
use asn.Identifier.{id_bit_string}
use asn.Buffer.{Pointer}
use asn.Encoding.{encode_identifier, encode_length}
use asn.Parser.Node.{Node}
use asn.Serializer.{Serializer, serialize_raw}
use asn.Types.Access.{Parsed, ok, error, byte_at, expect}

-- asn1_bit_string_t
pub record BitString : Type 0 where
  pub bytes : Pointer
  pub byte_count : ℕ
  pub unused_bits : ℕ

-- `node->data_bytes + 1`; NULL has no bytes behind it.
abbrev pub behind_first : Option Pointer → Pointer
behind_first none = []
behind_first (some p) = drop 1 p

-- The bytes behind the count of unused bits.
unfoldable pub take_bits : Node → ℕ → Parsed BitString
take_bits node unused = ok (record {
  bytes = behind_first node.data_bytes;
  byte_count = node.data_length - 1;
  unused_bits = unused;
})

-- "Unused bits must be zero"
unfoldable pub check_unused : Node → ℕ → Parsed BitString
unfolding byte_at take_bits
check_unused node unused =
    if ltb 0 unused && ltb 1 node.data_length
    then bind (access (byte_at node (node.data_length - 1)) tt) (λ last_byte _.
      if not (bit_and last_byte (2 ^ unused - 1) == 0)
      then error invalid_object "Unused bits must be zero"
      else take_bits node unused)
    else take_bits node unused

-- asn1_parse_bit_string()
unfoldable pub parse_bit_string : Node → Parsed BitString
unfolding expect check_unused
parse_bit_string node =
    expect node id_bit_string "Expected BIT STRING" "Constructed BIT STRING not supported" (
      if node.data_length == 0
      then error invalid_object "BIT STRING must have at least 1 byte"
      else bind (access (byte_at node 0) tt) (λ unused _.
        if ltb 7 unused
        then error invalid_object "Invalid unused bits count"
        else (if node.data_length == 1 && not (unused == 0)
            then error invalid_object "Empty BIT STRING must have 0 unused bits"
            else check_unused node unused)))

-- asn1_serialize_bit_string()
unfoldable pub serialize_bit_string : BitString → Op Serializer (Unit {0})
unfolding serialize_raw
serialize_bit_string bs =
    let id_buf = encode_identifier id_bit_string false in
    let len_buf = encode_length (add_size 1 bs.byte_count) in
    (do
      serialize_raw id_buf (length id_buf)
      serialize_raw len_buf (length len_buf)
      serialize_raw (bs.unused_bits ∷ []) 1
      if ltb 0 bs.byte_count then serialize_raw bs.bytes bs.byte_count else return tt)

-- asn1_bit_string_bit_count()
unfoldable pub bit_count : BitString → ℕ
bit_count bs =
    if bs.byte_count == 0 then 0 else sub_size (bs.byte_count * 8 % size_mod) bs.unused_bits

-- asn1_bit_string_get(): the most significant bit is the first.
unfoldable pub bit_get : BitString → ℕ → Parsed Bool
bit_get bs bit_index =
    let byte_index = bit_index / 8 in
    let bit_offset = 7 - bit_index % 8 in
    if leb bs.byte_count byte_index
    then ok false
    else bind (access (get_elem? bs.bytes byte_index) tt)
        (λ byte _. ok (not (bit_and (byte / 2 ^ bit_offset) 1 == 0)))
