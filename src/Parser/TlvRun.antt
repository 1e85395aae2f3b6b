-- ===== src/Parser/TlvRun.antt =====
-- parse_node() on one node: a leaf, and a branch whose children are parsed.
use asn.Base.{
  ℕ, suc, ◌+◌, ◌^◌, ◌<◌, ◌≡◌, ◌∙◌, List, [], ◌∷◌, ◌++◌, append_assoc, length, length-append, arith,
  Bool, true, false, size_mod, sub_size, done, splice, splice-splice, modify-splice, length-splice,
}
use asn.Error.{Op}
use asn.Identifier.{Identifier}
use asn.Encoding.{encode_identifier, encode_length}
use asn.Buffer.Reads.{IsBefore, advance, read_bytes-IsBefore}
use asn.Parser.Header.{EncodingRules, definite}
use asn.Parser.Node.{
  Node, ParseState, parse_children, finish_node, parse_primitive, parse_constructed, parse_content,
  parse_tlv, constructed_node,
}
use asn.Parser.HeaderRun.{
  HasRoom, after, past, add_node-HasRoom, header_of, header_size, IsBefore-header, parse_tlv-header,
}
use asn.Tree.{
  Trees, leaf, branch, encode, encode_all, size, size_all, nodes, nodes_all, length-nodes_all,
}

pub length-encoding :
    (id : Identifier) (k : Bool) (xs : List ℕ)
    → length (encode_identifier id k ++ (encode_length (length xs) ++ xs))
      ≡ header_size id k (length xs) + length xs
length-encoding id k xs = omega (
  arith,
  length-append (encode_identifier id k) (encode_length (length xs) ++ xs),
  length-append (encode_length (length xs)) xs,
)

pub regroup :
    (id : Identifier) (k : Bool) (xs rest : List ℕ)
    → (encode_identifier id k ++ (encode_length (length xs) ++ xs)) ++ rest
      ≡ encode_identifier id k ++ (encode_length (length xs) ++ (xs ++ rest))
regroup id k xs rest = simp append_assoc

-- What IsBefore says of the lengths.
pub content_short :
    (id : Identifier) (k : Bool) (xs rest : List ℕ) (s : ParseState)
    → IsBefore s.buf ((encode_identifier id k ++ (encode_length (length xs) ++ xs)) ++ rest)
    → s.buf.offset + (header_size id k (length xs) + length xs) < size_mod
content_short id k xs rest s h = omega (
  arith,
  h.left,
  h.small,
  length-append (encode_identifier id k ++ (encode_length (length xs) ++ xs)) rest,
  length-encoding id k xs,
)

module _ (child : Op ParseState (Unit {0})) (rules : EncodingRules) (depth : ℕ) (s : ParseState)
    (rest : List ℕ) (id : Identifier) (xs : List ℕ) (tag : id.tag_number < 2 ^ 32) where
  pub parse_tlv-leaf :
      IsBefore s.buf (encode (leaf id xs) ++ rest)
      → HasRoom s 1
      → parse_tlv child rules depth s
        ≡ done tt (after s (length (encode (leaf id xs))) (nodes (leaf id xs) depth rest))
  unfolding encode nodes
  parse_tlv-leaf h room =
      let h' = rw (regroup id false xs rest) at h in
      let short = content_short id false xs rest s h in
      let len = length-encoding id false xs in
      let header = IsBefore-header id false (length xs) (xs ++ rest) s tag (omega arith) h' in
      parse_tlv-header id false (length xs) (xs ++ rest) s tag (omega arith) h' child rules depth
      ∙ unfold parse_content parse_primitive in
        rw (read_bytes-IsBefore _ xs rest header, add_node-HasRoom _ _ room)
          (let size : sub_size (s.buf.offset + header_size id false (length xs) + length xs)
                  s.buf.offset
                ≡ length (encode (leaf id xs)) =
              omega (arith, len) in
            let end : s.buf.offset + header_size id false (length xs) + length xs
                ≡ s.buf.offset + length (encode (leaf id xs)) =
              omega (arith, len) in
            rw (size, end, h.rest))

-- What is left of a constructed node when its children are parsed.
module _ (child : Op ParseState (Unit {0})) (rules : EncodingRules) (depth : ℕ) (s : ParseState)
    (rest : List ℕ) (id : Identifier) (ts : Trees) (tag : id.tag_number < 2 ^ 32) where
  abbrev pub content : List ℕ
  content = encode_all ts

  abbrev pub started : Node
  started = constructed_node (header_of s id true (length content) depth)

  -- The state in front of the children.
  abbrev pub opened : ParseState
  opened = record {
    buf = advance s.buf (header_size id true (length content));
    result = record s.result {
      nodes = splice s.result.nodes s.result.count (started ∷ []);
      count = s.result.count + 1;
    };
  }

  pub IsBefore-opened :
      IsBefore s.buf (encode (branch id ts) ++ rest) → IsBefore opened.buf (content ++ rest)
  unfolding encode
  IsBefore-opened h =
      IsBefore-header id true (length content) (content ++ rest) s tag
        (omega (arith, content_short id true content rest s h))
        (rw (regroup id true content rest) at h)

  pub HasRoom-opened : HasRoom s (size (branch id ts)) → HasRoom opened (size_all ts)
  unfolding size
  HasRoom-opened room = omega (arith, length-splice s.result.nodes s.result.count (started ∷ []))

  pub parse_tlv-branch :
      IsBefore s.buf (encode (branch id ts) ++ rest)
      → HasRoom s (size (branch id ts))
      → parse_children child (definite (length content)) opened
        ≡ done tt (after opened (length content) (nodes_all ts (depth + 1) rest))
      → parse_tlv child rules depth s
        ≡ done tt (after s (length (encode (branch id ts))) (nodes (branch id ts) depth rest))
  unfolding encode nodes size
  parse_tlv-branch h room children =
      let h' = rw (regroup id true content rest) at h in
      let short = content_short id true content rest s h in
      let len = length-encoding id true content in
      parse_tlv-header id true (length content) (content ++ rest) s tag (omega arith) h' child rules
        depth
      ∙ unfold parse_content parse_constructed finish_node in
        rw
          (
            add_node-HasRoom started (past s (header_size id true (length content))) (omega arith),
            children,
            splice-splice s.result.nodes s.result.count (started ∷ [])
                (nodes_all ts (depth + 1) rest) (s.result.count + 1) (omega arith),
            modify-splice s.result.nodes s.result.count started (nodes_all ts (depth + 1) rest) _
                (omega arith),
          )
          (let start : ℕ = s.buf.offset in
            let body : ℕ = header_size id true (length content) in
            let below : ℕ = length (nodes_all ts (depth + 1) rest) in
            let bytes : sub_size (start + body + length content) start
                ≡ length (encode (branch id ts)) =
              omega (arith, len) in
            let end : start + body + length content ≡ start + length (encode (branch id ts)) =
              omega (arith, len) in
            let many : sub_size (s.result.count + 1 + below) s.result.count ≡ suc (size_all ts) =
              omega (arith, room.below, room.small, length-nodes_all ts (depth + 1) rest) in
            let all : s.result.count + 1 + below ≡ s.result.count + suc below = omega arith in
            rw (bytes, end, many, all, h.rest))
