-- ===== src/Parser/Safety.antt =====
-- asn1_parser.c, identifiers, lengths and ends of contents: no read leaves the input array.
use asn.Parser.Node.{check_end, second_is_zero, at_end_marker, check_trailing}
use asn.Base.{
  ℕ, zero, suc, ◌≤◌, ◌≡◌, refl, ◌∙◌, Bool, none, some, length, get_elem?-lt, ltb, leb, ◌==◌, arith,
  Returns, Returns-bind, Returns-mono, returned, raised, Returns-if, Returns-if_op, String, bit_and,
  add_size,
}
use asn.Error.{Op, ErrorCode}
use asn.Buffer.{buffer_remaining, Buffer, read_byte, need_byte, peek_byte, skip, read_bytes}
use asn.Identifier.{TagClass}
use asn.Parser.Header.{
  EncodingRules, base128_loop, long_tag, parse_identifier, length_loop, check_minimal,
  required_loop, long_length, length_of, parse_length, push_group, push_octet, is_der, ber, der,
}

-- The caller's length lies within the caller's array.
abbrev pub IsReadable : Buffer → Type 0
IsReadable b = b.length ≤ length b.input

-- The operation returns, whatever the bytes are, and keeps the array.
abbrev pub Reading : {A : Type 0} → Op Buffer A → Type 0
Reading m = (b : Buffer) → IsReadable b → Returns (λ _ c. IsReadable c) IsReadable (m b)

pub read_byte-Reading : Reading read_byte
unfolding read_byte
read_byte-Reading b h =
    Returns-if (leb b.length b.offset) (λ _. returned h)
      λ e. let (x, found) = get_elem?-lt b.input b.offset (ground arith) in rw found (returned h)

pub peek_byte-Reading : Reading peek_byte
unfolding peek_byte
peek_byte-Reading b h =
    Returns-if (leb b.length b.offset) (λ _. returned h)
      λ e. let (x, found) = get_elem?-lt b.input b.offset (ground arith) in rw found (returned h)

pub need_byte-Reading : (c : ErrorCode) (m : String) → Reading (need_byte c m)
unfolding need_byte
need_byte-Reading c m b h =
    Returns-bind (read_byte-Reading b h)
      (elim [ none ↦ λ d k. raised k | some x ↦ λ d k. returned k ])

pub skip-Reading : (n : ℕ) → Reading (skip n)
unfolding skip
skip-Reading n b h =
    Returns-if (ltb b.length (add_size b.offset n)) (λ _. returned h) (λ _. returned h)

pub read_bytes-Reading : (n : ℕ) → Reading (read_bytes n)
unfolding read_bytes
read_bytes-Reading n b h =
    Returns-if (ltb b.length (add_size b.offset n)) (λ _. returned h) (λ _. returned h)

base128_loop-Reading : (left value : ℕ) → Reading (base128_loop left value)
unfolding base128_loop
base128_loop-Reading zero value b h = Returns-bind (need_byte-Reading _ _ b h) (λ x d k. raised k)
base128_loop-Reading (suc left) value b h = Returns-bind (need_byte-Reading _ _ b h) λ x d k.
    Returns-if_op (bit_and x 0x80 == 0) _ _ d (λ _. returned k)
      (λ _. base128_loop-Reading left (push_group value x) d k)

long_tag-Reading : (c : TagClass) (k : Bool) → Reading (long_tag c k)
unfolding long_tag
long_tag-Reading c k b h =
    Returns-bind (base128_loop-Reading 5 0 b h)
      λ n d j. Returns-if_op (ltb n 0x1F) _ _ d (λ _. raised j) (λ _. returned j)

pub parse_identifier-Reading : Reading parse_identifier
unfolding parse_identifier
parse_identifier-Reading b h = Returns-bind (need_byte-Reading _ _ b h) λ x d k.
    Returns-if_op (bit_and x 0x1F == 0x1F) _ _ d (λ _. long_tag-Reading _ _ d k) (λ _. returned k)

length_loop-Reading : (left value : ℕ) → Reading (length_loop left value)
unfolding length_loop
length_loop-Reading zero value b h = returned h
length_loop-Reading (suc left) value b h =
    Returns-bind (need_byte-Reading _ _ b h)
      λ x d k. length_loop-Reading left (push_octet value x) d k

check_minimal-Reading : (rules : EncodingRules) (k n : ℕ) → Reading (check_minimal rules k n)
unfolding check_minimal
check_minimal-Reading ber k n b h = returned h
check_minimal-Reading der k n b h =
    Returns-if_op (leb n 0x7F) _ _ b (λ _. raised h)
      (λ _. Returns-if_op (ltb (required_loop 8 n 0) k) _ _ b (λ _. raised h) (λ _. returned h))

long_length-Reading : (rules : EncodingRules) (k : ℕ) → Reading (long_length rules k)
unfolding long_length
long_length-Reading rules k b h =
    Returns-if_op (k == 0) _ _ b (λ _. raised h)
      λ _.
        Returns-if_op (ltb 8 k) _ _ b (λ _. raised h)
          λ _.
            Returns-bind (length_loop-Reading k 0 b h) λ n d j. check_minimal-Reading rules k n d j

length_of-Reading : (rules : EncodingRules) (x : ℕ) → Reading (length_of rules x)
unfolding length_of
length_of-Reading rules x b h =
    Returns-if_op (x == 0x80) _ _ b
      (λ _. Returns-if_op (is_der rules) _ _ b (λ _. raised h) (λ _. returned h))
      (λ _.
        Returns-if_op (bit_and x 0x80 == 0) _ _ b (λ _. returned h)
          (λ _. long_length-Reading rules (bit_and x 0x7F) b h))

pub parse_length-Reading : (rules : EncodingRules) → Reading (parse_length rules)
unfolding parse_length
parse_length-Reading rules b h = Returns-bind (need_byte-Reading _ _ b h) (length_of-Reading rules)

pub check_end-Reading : (end_offset : ℕ) → Reading (check_end end_offset)
unfolding check_end
check_end-Reading end_offset b h =
    Returns-if (b.offset == end_offset) (λ _. returned h) (λ _. raised h)

second_is_zero-Keeps :
    (b : Buffer) → IsReadable b → Returns (λ _ c. c ≡ b) IsReadable (second_is_zero b)
unfolding second_is_zero
second_is_zero-Keeps b h =
    Returns-bind (Returns-bind (skip-Reading 1 b h) (λ _ d k. peek_byte-Reading d k))
      (λ _ d k. returned refl)

peek_byte-Keeps : (b : Buffer) → IsReadable b → Returns (λ _ c. c ≡ b) IsReadable (peek_byte b)
unfolding peek_byte
peek_byte-Keeps b h =
    Returns-if (leb b.length b.offset) (λ _. returned refl)
      λ e. let (x, found) = get_elem?-lt b.input b.offset (ground arith) in rw found (returned refl)

-- The test for the marker reads nothing.
pub at_end_marker-Keeps :
    (b : Buffer) → IsReadable b → Returns (λ _ c. c ≡ b) IsReadable (at_end_marker b)
unfolding at_end_marker
at_end_marker-Keeps b h = Returns-bind (peek_byte-Keeps b h) (elim [
  | none ↦ λ d e. raised (rw e h)
  | some x ↦ λ d e.
      Returns-if_op (x == 0) _ _ d
        (λ _. Returns-mono (λ _ c k. k ∙ e) (second_is_zero-Keeps d (rw e h))) (λ _. returned e)
])

pub at_end_marker-Reading : Reading at_end_marker
at_end_marker-Reading b h = Returns-mono (λ _ c e. rw e h) (at_end_marker-Keeps b h)

pub check_trailing-Reading : Reading check_trailing
unfolding check_trailing
check_trailing-Reading b h =
    Returns-if (ltb 0 (buffer_remaining b)) (λ _. raised h) (λ _. returned h)
