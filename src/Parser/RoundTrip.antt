-- ===== src/Parser/RoundTrip.antt =====
-- parse_node() reads the encoding of a tree as the nodes of the tree, and so does asn1_parse().
use asn.Base.{
  ℕ, zero, suc, ◌+◌, ◌-◌, ◌≤◌, ◌<◌, ◌≡◌, refl, ap, ◌∙◌, List, [], ◌++◌, append_assoc, append-nil,
  length, length-append, arith, false, ltb, some, Bool-cases, inl, inr, le→ltb, lt→ltb, eq→==,
  ne→==, size_mod, add_size, done, splice, splice-splice, splice_empty, length-splice,
}
use asn.Error.{Op}
use asn.Encoding.{encode_identifier}
use asn.Buffer.{buffer_init}
use asn.Buffer.Reads.{IsBefore, IsBefore-advance, IsBefore-init, remaining-IsBefore}
use asn.Parser.Header.{EncodingRules, definite}
use asn.Parser.Node.{
  Node, ParseResult, ParseState, rounds, max_depth, check_end, definite_loop, parse_children,
  parse_definite_children, parse_node, check_trailing, asn1_parse,
}
use asn.Parser.HeaderRun.{HasRoom, after}
use asn.Parser.TlvRun.{parse_tlv-leaf, parse_tlv-branch, opened, IsBefore-opened, HasRoom-opened}
use asn.Tree.{
  Tree, Trees, leaf, branch, nil, cons, encode, encode_all, size, size_all, height, height_all,
  HasTags, AllHaveTags, nodes, nodes_all, length-nodes,
}

pub after-after :
    (s : ParseState) (n m k : ℕ) (ns ms : List Node)
    → k ≡ n + m
    → after (after s n ns) m ms ≡ after s k (ns ++ ms)
after-after s n m k ns ms e =
    let end : s.buf.offset + n + m ≡ s.buf.offset + k = omega arith in
    let count : s.result.count + length ns + length ms ≡ s.result.count + length (ns ++ ms) =
      omega (arith, length-append ns ms) in
    rw (
      end,
      count,
      splice-splice s.result.nodes s.result.count ns ms (s.result.count + length ns) refl,
    )

pub after_nothing : (s : ParseState) → s ≡ after s 0 []
after_nothing s =
    let end : s.buf.offset + 0 ≡ s.buf.offset = omega arith in
    let count : s.result.count + 0 ≡ s.result.count = omega arith in
    rw (end, count, splice_empty s.result.nodes s.result.count)

pub HasRoom-after :
    (s : ParseState) (n k : ℕ) (ns : List Node)
    → HasRoom s (length ns + k)
    → HasRoom (after s n ns) k
HasRoom-after s n k ns room = omega (arith, length-splice s.result.nodes s.result.count ns)

encode_pos : (t : Tree) → 0 < length (encode t)
unfolding encode encode_identifier
encode_pos (leaf id xs) = elim (Bool-cases (ltb id.tag_number 0x1f)) [
  | inl e ↦ rw e (omega arith)
  | inr e ↦ rw e (omega arith)
]
encode_pos (branch id ts) = elim (Bool-cases (ltb id.tag_number 0x1f)) [
  | inl e ↦ rw e (omega arith)
  | inr e ↦ rw e (omega arith)
]

module _ (child : Op ParseState (Unit {0})) where
  pub definite_loop_end :
      (f fuel end_offset : ℕ) (s : ParseState)
      → fuel ≡ suc f
      → end_offset ≡ s.buf.offset
      → definite_loop child fuel end_offset s ≡ done tt s
  unfolding definite_loop
  definite_loop_end f fuel end_offset s e end = rw (e, le→ltb s.buf.offset end_offset (omega arith))

  pub definite_loop_step :
      (f fuel end_offset : ℕ) (s t : ParseState)
      → fuel ≡ suc f
      → s.buf.offset < end_offset
      → child s ≡ done tt t
      → definite_loop child fuel end_offset s ≡ definite_loop child f end_offset t
  unfolding definite_loop
  definite_loop_step f fuel end_offset s t e more ran =
      rw (e, lt→ltb s.buf.offset end_offset more, ran)

  -- The children of a definite length, when the loop over them ends at the right place.
  pub parse_children-definite :
      (xs rest : List ℕ) (s : ParseState) (ns : List Node)
      → IsBefore s.buf (xs ++ rest)
      → definite_loop child (rounds s) (s.buf.offset + length xs) s
        ≡ done tt (after s (length xs) ns)
      → parse_children child (definite (length xs)) s ≡ done tt (after s (length xs) ns)
  unfolding parse_children parse_definite_children check_end
  parse_children-definite xs rest s ns h loop =
      let enough : length xs ≤ length (xs ++ rest) = omega (arith, length-append xs rest) in
      let end : add_size s.buf.offset (length xs) ≡ s.buf.offset + length xs =
        omega (arith, h.left, h.small) in
      rw (
        remaining-IsBefore s.buf (xs ++ rest) h,
        le→ltb (length (xs ++ rest)) (length xs) enough,
        end,
        loop,
        eq→== (s.buf.offset + length xs) (s.buf.offset + length xs) refl,
      )

size_pos : (t : Tree) → 0 < size t
unfolding size
size_pos (leaf id xs) = omega arith
size_pos (branch id ts) = omega arith

mutual
  unfolding parse_node definite_loop encode size height HasTags nodes

  parse_node-run :
      (t : Tree) (levels : ℕ) (rules : EncodingRules) (depth : ℕ) (s : ParseState) (rest : List ℕ)
      → max_depth < levels + depth
      → depth + height t ≤ max_depth
      → HasTags t
      → IsBefore s.buf (encode t ++ rest)
      → HasRoom s (size t)
      → parse_node levels rules depth s ≡ done tt (after s (length (encode t)) (nodes t depth rest))
  parse_node-run (leaf id xs) zero rules depth s rest deep high tags h room = absurd (omega arith)
  parse_node-run (branch id ts) zero rules depth s rest deep high tags h room = absurd (omega arith)
  parse_node-run (leaf id xs) (suc levels) rules depth s rest deep high tags h room =
      rw (le→ltb max_depth depth (omega arith))
        (parse_tlv-leaf (parse_node levels rules (depth + 1)) rules depth s rest id xs tags h room)
  parse_node-run (branch id ts) (suc levels) rules depth s rest deep high tags h room =
      let child = parse_node levels rules (depth + 1) in
      let s' = opened child rules depth s rest id ts tags.0 in
      let h' = IsBefore-opened child rules depth s rest id ts tags.0 h in
      let room' = HasRoom-opened child rules depth s rest id ts tags.0 room in
      rw (le→ltb max_depth depth (omega arith)) (
        parse_tlv-branch child rules depth s rest id ts tags.0 h room (
          parse_children-definite child (encode_all ts) rest s' (nodes_all ts (depth + 1) rest) h' (
            definite_loop-run ts levels rules (depth + 1) s' rest (rounds s') _ (omega arith)
              (omega arith) tags.1 h' room' (omega (arith, room'.below)) refl)))

  definite_loop-run :
      (ts : Trees) (levels : ℕ) (rules : EncodingRules) (depth : ℕ) (s : ParseState) (rest : List ℕ)
      (fuel end_offset : ℕ)
      → max_depth < levels + depth
      → depth + height_all ts ≤ suc max_depth
      → AllHaveTags ts
      → IsBefore s.buf (encode_all ts ++ rest)
      → HasRoom s (size_all ts)
      → size_all ts < fuel
      → end_offset ≡ s.buf.offset + length (encode_all ts)
      → definite_loop (parse_node levels rules depth) fuel end_offset s
        ≡ done tt (after s (length (encode_all ts)) (nodes_all ts depth rest))
  definite_loop-run nil levels rules depth s rest fuel end_offset deep high tags h room many end =
      definite_loop_end (parse_node levels rules depth) (fuel - 1) fuel end_offset s (omega arith)
        (omega arith)
      ∙ ap (done tt) (after_nothing s)
  definite_loop-run (cons t ts) levels rules depth s rest fuel end_offset deep high tags h room many
        end =
      let behind : List ℕ = encode_all ts ++ rest in
      let h' : IsBefore s.buf (encode t ++ behind) =
        rw (← append_assoc (encode t) (encode_all ts) rest) h in
      let ns : List Node = nodes t depth behind in
      let s' : ParseState = after s (length (encode t)) ns in
      let lens = length-append (encode t) (encode_all ts) in
      let count = length-nodes t depth behind in
      definite_loop_step (parse_node levels rules depth) (fuel - 1) fuel end_offset s s'
        (omega arith) (omega (arith, encode_pos t))
        (parse_node-run t levels rules depth s behind deep (omega arith) tags.0 h' (omega arith))
      ∙ definite_loop-run ts levels rules depth s' rest (fuel - 1) end_offset deep (omega arith)
          tags.1 (IsBefore-advance s.buf (encode t) behind h')
          (HasRoom-after s (length (encode t)) (size_all ts) ns (omega (arith, count)))
          (omega (arith, size_pos t)) (omega arith)
      ∙ ap (done tt) (
          after-after s (length (encode t)) (length (encode_all ts)) _ ns (nodes_all ts depth rest)
            lens)

-- The result is empty, its array is as long as its capacity says, and it can hold `n` nodes.
pub record CanHold (r : ParseResult) (n : ℕ) : Type 0 where
  pub enough : n ≤ r.capacity
  pub writable : r.capacity ≤ length r.nodes
  pub small : r.capacity < size_mod

module _ (t : Tree) (rules : EncodingRules) (r : ParseResult) (high : height t < max_depth)
    (tags : HasTags t) (fits : length (encode t) < size_mod) (holds : CanHold r (size t)) where
  abbrev start : ParseState
  start = record {
    buf = buffer_init (encode t) (length (encode t));
    result = record r { count = 0 };
  }

  start-IsBefore : IsBefore start.buf (encode t ++ [])
  start-IsBefore = rw (append-nil (encode t)) (IsBefore-init (encode t) fits)

  parse_root :
      parse_node max_depth rules 1 start ≡ done tt (after start (length (encode t)) (nodes t 1 []))
  parse_root =
      parse_node-run t max_depth rules 1 start [] (omega arith) (omega arith) tags start-IsBefore
        (omega arith)

  -- Under both rules, asn1_parse() on the encoding of a tree fills the array from its first cell with
  -- the nodes of the tree in pre-order, their depths, sizes and pointers included, and leaves the other
  -- cells alone. The tree is not deeper than the limit, its tag numbers are 32 bits wide, its encoding
  -- is shorter than 2 ^ 64 and the array can hold its nodes.
  pub asn1_parse-encode :
      asn1_parse (some (encode t)) (length (encode t)) rules false r
      ≡ done tt (record r { nodes = splice r.nodes 0 (nodes t 1 []); count = size t })
  unfolding asn1_parse check_trailing
  asn1_parse-encode =
      let none_left =
        remaining-IsBefore _ [] (IsBefore-advance start.buf (encode t) [] start-IsBefore) in
      rw (ne→== (length (encode t)) 0 (omega (arith, encode_pos t)), parse_root, none_left)
        (ap (λ n. done tt (record r { nodes = splice r.nodes 0 (nodes t 1 []); count = n }))
          (omega (arith, length-nodes t 1 [])))
