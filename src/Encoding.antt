-- ===== src/Encoding.antt =====
-- Parser/src/asn1_internal.h, the second part: the DER encodings of lengths and tags.
-- A function that fills `buf` and returns the number of bytes is a function to those bytes.
pub mod Octets
pub mod Groups
use asn.Base.{
  ℕ, zero, suc, ◌*◌, ◌/◌, ◌%◌, ◌^◌, ◌+◌, Bool, List, [], ◌∷◌, ltb, leb, if◌then◌else◌, bit_and,
  bit_or,
}
use asn.Identifier.{Identifier, class_number}

-- The loop of asn1_encode_length(), `while (temp > 0) { bytes++; temp >>= 8; }` from 0 on, for at most
-- `rounds` rounds.
unfoldable pub count_octets : ℕ → ℕ → ℕ
count_octets zero temp = 0
count_octets (suc rounds) temp = if ltb 0 temp then count_octets rounds (temp / 2 ^ 8) + 1 else 0

-- A `size_t` takes at most 8 rounds.
abbrev pub octets_needed : ℕ → ℕ
octets_needed n = count_octets 8 n

-- The loop of asn1_length_bytes_needed() with its variables, for at most `rounds` rounds.
unfoldable pub needed_loop : ℕ → ℕ → ℕ → ℕ
needed_loop zero temp bytes = bytes
needed_loop (suc rounds) temp bytes =
    if ltb 0 temp then needed_loop rounds (temp / 2 ^ 8) (bytes + 1) else bytes

-- asn1_length_bytes_needed()
unfoldable pub length_bytes_needed : ℕ → ℕ
unfolding needed_loop
length_bytes_needed n = if leb n 0x7F then 1 else needed_loop 8 n 0 + 1

-- `for (i = bytes; i > 0; i--) { buf[i] = length & 0xFF; length >>= 8; }`; the last list is what
-- is written already.
unfoldable pub fill_octets : ℕ → ℕ → List ℕ → List ℕ
fill_octets zero n written = written
fill_octets (suc i) n written = fill_octets i (n / 2 ^ 8) (bit_and n 0xFF ∷ written)

-- asn1_encode_length()
unfoldable pub encode_length : ℕ → List ℕ
unfolding count_octets fill_octets
encode_length n =
    if leb n 0x7F
    then n ∷ []
    else bit_or 0x80 (octets_needed n) ∷ fill_octets (octets_needed n) n []

-- `while (temp > 0) { bytes++; temp >>= 7; }` for at most `rounds` rounds.
unfoldable pub count_groups : ℕ → ℕ → ℕ
count_groups zero temp = 0
count_groups (suc rounds) temp = if ltb 0 temp then count_groups rounds (temp / 2 ^ 7) + 1 else 0

-- asn1_identifier_bytes_needed(); a `uint32_t` takes at most 5 rounds.
unfoldable pub identifier_bytes_needed : Identifier → ℕ
unfolding count_groups
identifier_bytes_needed id = if ltb id.tag_number 0x1f then 1 else count_groups 5 id.tag_number + 1

-- `while (tag > 0) { temp[len++] = 0x80 | (tag & 0x7F); tag >>= 7; }` for at most `rounds` rounds,
-- then `temp` read backwards.
unfoldable pub fill_groups : ℕ → ℕ → List ℕ → List ℕ
fill_groups zero tag written = written
fill_groups (suc rounds) tag written =
    let more = fill_groups rounds (tag / 2 ^ 7) (bit_or 0x80 (bit_and tag 0x7F) ∷ written) in
    if ltb 0 tag then more else written

-- A `uint32_t` takes four groups of seven bits at most beside the first.
unfoldable pub base128_octets : ℕ → List ℕ
unfolding fill_groups
base128_octets tag = fill_groups 4 (tag / 2 ^ 7) (bit_and tag 0x7F ∷ [])

-- asn1_encode_identifier()
unfoldable pub encode_identifier : Identifier → Bool → List ℕ
unfolding base128_octets
encode_identifier id constructed =
    let class_bits = class_number id.tag_class * 2 ^ 6 % 2 ^ 8 in
    let constructed_bit : ℕ = if constructed then 0x20 else 0x00 in
    if ltb id.tag_number 0x1f
    then bit_or (bit_or class_bits constructed_bit) id.tag_number ∷ []
    else bit_or (bit_or class_bits constructed_bit) 0x1F ∷ base128_octets id.tag_number
