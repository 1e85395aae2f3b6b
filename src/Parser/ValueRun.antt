-- ===== src/Parser/ValueRun.antt =====
-- parse_node() on one value of the grammar: a primitive one, and a constructed one whose content is parsed.
use asn.Base.{
  All-split, ℕ, suc, ◌+◌, ◌%◌, ◌<◌, ◌≡◌, refl, ap, ◌∙◌, List, [], ◌∷◌, ◌++◌, append_assoc, length,
  length-append, arith, Bool, true, false, not, ◌&&◌, size_mod, sub_size, done, splice,
  splice-splice, modify-splice, length-splice, All, IsByte,
}
use asn.Error.{Op}
use asn.Identifier.{Identifier}
use asn.Buffer.{buffer_current}
use asn.Buffer.Reads.{IsBefore, IsBefore-advance, advance, advance-advance, read_bytes-IsBefore}
use asn.Parser.Header.{EncodingRules, Length, definite, indefinite}
use asn.Parser.Node.{
  Node, ParseState, Header, parse_children, finish_node, parse_primitive, parse_constructed,
  parse_content, parse_tlv, constructed_node, is_indefinite,
}
use asn.Parser.HeaderRun.{HasRoom, after, past, add_node-HasRoom}
use asn.Parser.HeaderComplete.{IsSize, parse_identifier-IsTag, parse_length-IsLength}
use asn.Parser.Grammar.{IsHeader, flat_node, nested_node}

-- The header of a value that begins in the state.
abbrev pub header_at : ParseState → Identifier → Bool → Length → ℕ → Header
header_at s id k l depth = record {
  identifier = id;
  constructed = k;
  length = l;
  start_offset = s.buf.offset;
  start_ptr = buffer_current s.buf;
  depth = depth;
}

module _ (child : Op ParseState (Unit {0})) (rules : EncodingRules) (depth : ℕ) (s : ParseState)
    (head : List ℕ) (id : Identifier) where
  parse_tlv-head :
      (k : Bool) (l : Length) (zs : List ℕ)
      → IsHeader rules head id k l
      → IsSize l
      → All IsByte head
      → IsBefore s.buf (head ++ zs)
      → parse_tlv child rules depth s
        ≡ parse_content child (header_at s id k l depth) (past s (length head))
  unfolding parse_tlv
  parse_tlv-head k l zs header small bytes h =
      let (tags, lengths) =
        All-split IsByte header.tag_bytes header.length_bytes (rw header.parts at bytes) in
      let whole : head ++ zs ≡ header.tag_bytes ++ (header.length_bytes ++ zs) =
        ap (λ l. l ++ zs) header.parts ∙ append_assoc header.tag_bytes header.length_bytes zs in
      let h' = rw whole at h in
      let size : length head ≡ length header.tag_bytes + length header.length_bytes =
        ap length header.parts ∙ length-append header.tag_bytes header.length_bytes in
      rw (
        parse_identifier-IsTag header.tag_bytes id k header.tag tags s.buf
            (header.length_bytes ++ zs) h',
        parse_length-IsLength rules header.length_bytes l header.size small lengths
            (advance s.buf (length header.tag_bytes)) zs
            (IsBefore-advance s.buf header.tag_bytes (header.length_bytes ++ zs) h'),
        advance-advance s.buf (length header.tag_bytes) (length header.length_bytes) (length head)
            size,
      )

  pub parse_tlv-flat :
      (xs rest : List ℕ)
      → IsHeader rules head id false (definite (length xs))
      → All IsByte head
      → IsBefore s.buf (head ++ (xs ++ rest))
      → HasRoom s 1
      → parse_tlv child rules depth s
        ≡ done tt (after s (length (head ++ xs)) (flat_node id depth (head ++ xs) xs rest ∷ []))
  parse_tlv-flat xs rest header bytes h room =
      let len = length-append head xs in
      let short : s.buf.offset + (length head + length xs) < size_mod =
        omega (arith, h.left, h.small, length-append head (xs ++ rest), length-append xs rest) in
      parse_tlv-head false (definite (length xs)) (xs ++ rest) header (omega (arith, short)) bytes h
      ∙ unfold parse_content parse_primitive in
        rw
          (
            read_bytes-IsBefore _ xs rest (IsBefore-advance s.buf head (xs ++ rest) h),
            add_node-HasRoom _ _ room,
          )
          (let size : sub_size (s.buf.offset + length head + length xs) s.buf.offset
                ≡ length (head ++ xs) =
              omega (arith, len, short) in
            let end : s.buf.offset + length head + length xs ≡ s.buf.offset + length (head ++ xs) =
              omega (arith, len) in
            rw (size, end, h.rest, append_assoc head xs rest))

  -- The node in front of its content, and the state behind it.
  abbrev pub started : Length → Node
  started l = constructed_node (header_at s id true l depth)

  abbrev pub opened : Length → ParseState
  opened l = record {
    buf = advance s.buf (length head);
    result = record s.result {
      nodes = splice s.result.nodes s.result.count (started l ∷ []);
      count = s.result.count + 1;
    };
  }

  pub HasRoom-opened : (l : Length) (n : ℕ) → HasRoom s (suc n) → HasRoom (opened l) n
  HasRoom-opened l n room =
      omega (arith, length-splice s.result.nodes s.result.count (started l ∷ []))

  no_clash : (l : Length) → (is_indefinite l && not true) ≡ false
  no_clash (definite n) = refl
  no_clash indefinite = refl

  pub parse_tlv-nested :
      (l : Length) (content rest : List ℕ) (below : List Node)
      → IsHeader rules head id true l
      → IsSize l
      → All IsByte head
      → IsBefore s.buf (head ++ (content ++ rest))
      → HasRoom s (suc (length below))
      → parse_children child l (opened l) ≡ done tt (after (opened l) (length content) below)
      → parse_tlv child rules depth s
        ≡ done tt (
            after s
              (length (head ++ content))
              (nested_node id depth (head ++ content) rest below ∷ below))
  parse_tlv-nested l content rest below header sized bytes h room children =
      let len = length-append head content in
      let short : s.buf.offset + (length head + length content) < size_mod = omega (
        arith,
        h.left,
        h.small,
        length-append head (content ++ rest),
        length-append content rest,
      ) in
      parse_tlv-head true l (content ++ rest) header sized bytes h
      ∙ unfold parse_content parse_constructed finish_node in
        rw
          (
            no_clash l,
            add_node-HasRoom (started l) (past s (length head)) (omega arith),
            children,
            splice-splice s.result.nodes s.result.count (started l ∷ []) below (s.result.count + 1)
                (omega arith),
            modify-splice s.result.nodes s.result.count (started l) below _ (omega arith),
          )
          (let start : ℕ = s.buf.offset in
            let bytes : sub_size (start + length head + length content) start
                ≡ length (head ++ content) =
              omega (arith, len, short) in
            let end : start + length head + length content ≡ start + length (head ++ content) =
              omega (arith, len) in
            let many : sub_size (s.result.count + 1 + length below) s.result.count
                ≡ suc (length below) % size_mod =
              omega arith in
            let all : s.result.count + 1 + length below ≡ s.result.count + suc (length below) =
              omega arith in
            rw (bytes, end, many, all, h.rest, append_assoc head content rest))
