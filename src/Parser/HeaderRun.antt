-- ===== src/Parser/HeaderRun.antt =====
-- parse_node() on the header of a definite encoding, and add_node() where a cell is free.
use asn.Base.{
  ℕ, ◌+◌, ◌^◌, ◌≤◌, ◌<◌, ◌≡◌, refl, List, [], ◌∷◌, ◌++◌, length, arith, Bool, lt→leb, size_mod,
  done, splice, store-splice,
}
use asn.Error.{Op}
use asn.Identifier.{Identifier}
use asn.Encoding.{encode_identifier, encode_length}
use asn.Buffer.{buffer_current}
use asn.Buffer.Reads.{IsBefore, IsBefore-advance, advance, advance-advance}
use asn.Parser.Header.{EncodingRules, definite}
use asn.Parser.LengthCodec.{parse_length-Reads}
use asn.Parser.TagCodec.{parse_identifier-Reads}
use asn.Parser.Node.{Node, ParseState, Header, add_node, parse_content, parse_tlv}

-- The result has free cells for `n` nodes.
pub record HasRoom (s : ParseState) (n : ℕ) : Type 0 where
  pub below : s.result.count + n ≤ s.result.capacity
  pub writable : s.result.capacity ≤ length s.result.nodes
  pub small : s.result.capacity < size_mod

-- The state `n` bytes and the nodes `ns` further.
abbrev pub after : ParseState → ℕ → List Node → ParseState
after s n ns = record {
  buf = advance s.buf n;
  result = record s.result {
    nodes = splice s.result.nodes s.result.count ns;
    count = s.result.count + length ns;
  };
}

pub add_node-HasRoom :
    (n : Node) (s : ParseState)
    → HasRoom s 1
    → add_node n s.result
      ≡ done tt (record s.result {
        nodes = splice s.result.nodes s.result.count (n ∷ []);
        count = s.result.count + 1;
      })
unfolding add_node
add_node-HasRoom n s room = rw (
  lt→leb s.result.capacity s.result.count (omega arith),
  store-splice s.result.nodes s.result.count n (omega arith),
)

-- The header of a definite encoding.
abbrev pub header_of : ParseState → Identifier → Bool → ℕ → ℕ → Header
header_of s id k n depth = record {
  identifier = id;
  constructed = k;
  length = definite n;
  start_offset = s.buf.offset;
  start_ptr = buffer_current s.buf;
  depth = depth;
}

abbrev pub header_size : Identifier → Bool → ℕ → ℕ
header_size id k n = length (encode_identifier id k) + length (encode_length n)

abbrev pub past : ParseState → ℕ → ParseState
past s n = record s { buf = advance s.buf n }

module _ (id : Identifier) (k : Bool) (n : ℕ) (zs : List ℕ) (s : ParseState)
    (tag : id.tag_number < 2 ^ 32) (short : n < size_mod)
    (h : IsBefore s.buf (encode_identifier id k ++ (encode_length n ++ zs))) where
  IsBefore-identifier :
      IsBefore (advance s.buf (length (encode_identifier id k))) (encode_length n ++ zs)
  IsBefore-identifier = IsBefore-advance s.buf (encode_identifier id k) (encode_length n ++ zs) h

  pub IsBefore-header : IsBefore (advance s.buf (header_size id k n)) zs
  IsBefore-header =
      rw
        (advance-advance s.buf (length (encode_identifier id k)) (length (encode_length n))
          (header_size id k n) refl)
        at (IsBefore-advance _ (encode_length n) zs IsBefore-identifier)

  pub parse_tlv-header :
      (child : Op ParseState (Unit {0})) (rules : EncodingRules) (depth : ℕ)
      → parse_tlv child rules depth s
        ≡ parse_content child (header_of s id k n depth) (past s (header_size id k n))
  unfolding parse_tlv
  parse_tlv-header child rules depth = rw (
    parse_identifier-Reads id k tag s.buf (encode_length n ++ zs) h,
    parse_length-Reads rules n short _ zs IsBefore-identifier,
    advance-advance s.buf (length (encode_identifier id k)) (length (encode_length n))
        (header_size id k n) refl,
  )
