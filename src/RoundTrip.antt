-- ===== src/RoundTrip.antt =====
-- The serializer (asn1_serializer.c) and the parser (asn1_parser.c) together.
use asn.Base.{ℕ, ◌^◌, ◌≤◌, ◌<◌, ◌≡◌, refl, some, false, List, [], length, take, splice, arith, done}
use asn.Serializer.{Serializer, serializer_init}
use asn.Serializer.Writes.{Holds}
use asn.Serializer.Constructed.{length-written}
use asn.Serializer.TreeRun.{serialize_tree, peak, IsShort, serialize_tree-Writes}
use asn.Parser.Header.{EncodingRules}
use asn.Parser.Node.{ParseResult, asn1_parse, max_depth}
use asn.Parser.RoundTrip.{CanHold, asn1_parse-encode}
use asn.Tree.{Tree, encode, size, height, HasTags, nodes}

-- An empty serializer over an array of `capacity` bytes.
pub serializer_init-Holds :
    (buffer : List ℕ) (capacity : ℕ)
    → capacity ≤ length buffer
    → capacity < 2 ^ 63
    → Holds (serializer_init buffer capacity) []
serializer_init-Holds buffer capacity inside small = record {
  written = refl;
  fits = omega arith;
  writable = inside;
  small = small;
}

-- Writing a tree into an array that has room for it leaves the DER encoding of the tree as the first
-- bytes of the array, and asn1_parse() on an array of these bytes gives the nodes of the tree, under
-- both rules. The capacity is below 2 ^ 63, the tree is not deeper than the limit, its tag numbers are 32 bits wide, the content of
-- each of its constructed values is below 4 GiB, and the array of nodes can hold it.
pub asn1_parse-serialize_tree :
    (t : Tree) (buffer : List ℕ) (capacity : ℕ) (rules : EncodingRules) (r : ParseResult)
    → capacity ≤ length buffer
    → capacity < 2 ^ 63
    → peak t ≤ capacity
    → IsShort t
    → height t < max_depth
    → HasTags t
    → CanHold r (size t)
    → (u : Serializer) × (serialize_tree t (serializer_init buffer capacity) ≡ done tt u)
      × (take u.length u.buffer ≡ encode t)
      × (asn1_parse (some (take u.length u.buffer)) u.length rules false r
          ≡ done tt (record r { nodes = splice r.nodes 0 (nodes t 1 []); count = size t }))
asn1_parse-serialize_tree t buffer capacity rules r inside small room short high tags holds =
    let (u, ran, h, same) =
      serialize_tree-Writes t (serializer_init buffer capacity) []
        (serializer_init-Holds buffer capacity inside small) short (omega arith) in
    let len : u.length ≡ length (encode t) = length-written u (encode t) h in
    (
      u,
      ran,
      h.written,
      rw (h.written, len) (asn1_parse-encode t rules r high tags (omega arith) holds),
    )
