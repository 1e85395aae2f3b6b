-- ===== src/Parser/Totality.antt =====
-- asn1_parser.c: asn1_parse() returns on every input, no access leaves an array, and the nodes that it
-- stores are one subtree.
use asn.Base.{
  ℕ, zero, suc, ◌+◌, ◌-◌, ◌≤◌, ◌<◌, ◌≡◌, refl, ap, sym, ◌∙◌, Bool, true, false, Option, none, some,
  List, [], ◌++◌, length, append-nil, ltb, leb, ◌==◌, arith, Outcome, take, Returns, Returns-bind,
  returned, raised, Returns-mono, Returns-if, Returns-if_op, not, ◌&&◌, ◌>>◌, return, add_size,
}
use asn.Error.{Error, Op}
use asn.Buffer.{Pointer, buffer_init, buffer_remaining, skip}
use asn.Parser.Header.{EncodingRules, Length, definite, indefinite}
use asn.Parser.Node.{
  Node, ParseResult, ParseState, Header, rounds, max_depth, definite_loop, indefinite_loop,
  parse_definite_children, parse_indefinite_children, parse_children, parse_primitive,
  parse_constructed, parse_content, parse_tlv, parse_node, result_of, asn1_parse, constructed_node,
  is_indefinite,
}
use asn.Parser.Safety.{
  check_end-Reading, at_end_marker-Reading, check_trailing-Reading, Reading, skip-Reading,
  read_bytes-Reading, parse_identifier-Reading, parse_length-Reading,
}
use asn.Parser.Shape.{IsSubtree, IsRow, IsRow-append, IsSubtree-pos, flat, nested, bare}
use asn.Parser.Storing.{
  IsSound, stored, Stores, Storing, IsNone, Stores-trans, Stores-mono, Stores-later, Storing-on_buf,
  Storing-add_node, finish_node-Stores,
}

-- A step that adds a subtree, and a row behind it.
Stores-IsRow :
    {depth : ℕ} {s t u : ParseState}
    → Stores (IsSubtree depth) s t
    → Stores (IsRow depth) t u
    → Stores (IsRow depth) s u
Stores-IsRow f g = Stores-trans IsRow-append f g

Stores-none : {depth : ℕ} {s t : ParseState} → Stores IsNone s t → Stores (IsRow depth) s t
Stores-none {depth} f = Stores-mono (λ ns e. rw e (no_row depth)) f
  where
    no_row : (depth : ℕ) → IsRow depth []
    no_row depth = ([], bare)

-- A row, and a step that adds nothing.
pub Stores-ended :
    {P : List Node → Type 0} {s t u : ParseState} → Stores P s t → Stores IsNone t u → Stores P s u
Stores-ended {P = P} f g = Stores-trans same f g
  where
    same : (ns ms : List Node) → P ns → ms ≡ [] → P (ns ++ ms)
    same ns ms p e = rw (e, append-nil) p

Stores-nothing : {depth : ℕ} (s : ParseState) → IsSound s → Stores (IsRow depth) s s
Stores-nothing s h = record {
  sound = h;
  same_capacity = refl;
  added = [];
  behind = sym (append-nil _);
  grown = omega arith;
  shape = ([], bare);
}

-- A subtree takes a free cell.
fewer :
    {depth fuel : ℕ} {s t : ParseState}
    → Stores (IsSubtree depth) s t
    → s.result.capacity - s.result.count < suc fuel
    → t.result.capacity - t.result.count < fuel
fewer g few = omega (arith, IsSubtree-pos g.shape, g.grown, g.same_capacity, g.sound.filled)

-- The child is parse_node() one level down.
module _ (child : Op ParseState (Unit {0})) (depth : ℕ)
    (one_more : Storing (IsSubtree depth) child) where
  -- Each round takes a free cell, so fuel above the number of free cells is not used up.
  definite_loop-Returns :
      (fuel end_offset : ℕ) (s : ParseState)
      → IsSound s
      → s.result.capacity - s.result.count < fuel
      → Returns (λ _ t. Stores (IsRow depth) s t) IsSound (definite_loop child fuel end_offset s)
  unfolding definite_loop
  definite_loop-Returns zero end_offset s h few = absurd (omega arith)
  definite_loop-Returns (suc fuel) end_offset s h few =
      Returns-if (ltb s.buf.offset end_offset)
        (λ _. Returns-bind (one_more s h) λ _ t g.
          Returns-mono (λ _ u g'. Stores-IsRow g g')
            (definite_loop-Returns fuel end_offset t g.sound (fewer g few)))
        (λ _. returned (Stores-nothing s h))

  indefinite_loop-Returns :
      (fuel : ℕ) (s : ParseState)
      → IsSound s
      → s.result.capacity - s.result.count < fuel
      → Returns (λ _ t. Stores (IsRow depth) s t) IsSound (indefinite_loop child fuel s)
  unfolding indefinite_loop
  indefinite_loop-Returns zero s h few = absurd (omega arith)
  indefinite_loop-Returns (suc fuel) s h few =
      Returns-if (leb 2 (buffer_remaining s.buf))
        (λ _. Returns-bind (Storing-on_buf _ at_end_marker-Reading s h) λ marker t g.
          Returns-if marker
            (λ _.
              Returns-mono (λ _ u g'. Stores-none (Stores-later g g'))
                (Storing-on_buf (do skip 2; return tt) skip_two t g.sound))
            (λ _. Returns-bind (one_more t g.sound) λ _ u g'.
              Returns-mono (λ _ v g''. Stores-later g (Stores-IsRow g' g''))
                (indefinite_loop-Returns fuel u g'.sound
                  (fewer g' (omega (arith, g.grown, g.same_capacity))))))
        (λ _. raised h)
    where
      skip_two : Reading (do skip 2; return tt)
      skip_two b k = Returns-bind (skip-Reading 2 b k) (λ _ d j. returned j)

  Storing-parse_children : (len : Length) → Storing (IsRow depth) (parse_children child len)
  unfolding parse_children parse_definite_children parse_indefinite_children
  Storing-parse_children (definite n) s h =
      Returns-if (ltb (buffer_remaining s.buf) n) (λ _. raised h)
        λ _.
          Returns-bind
            (definite_loop-Returns (rounds s) (add_size s.buf.offset n) s h (omega arith))
            λ _ t g.
              Returns-mono (λ _ u g'. Stores-ended g g')
                (Storing-on_buf _ (check_end-Reading (add_size s.buf.offset n)) t g.sound)
  Storing-parse_children indefinite s h = indefinite_loop-Returns (rounds s) s h (omega arith)

Storing-parse_primitive :
    (h : Header) (len : Length) (depth : ℕ)
    → h.depth ≡ depth
    → depth ≤ max_depth
    → Storing (IsSubtree depth) (parse_primitive h len)
unfolding parse_primitive
Storing-parse_primitive h (definite n) depth e low s k =
    Returns-bind (Storing-on_buf _ (read_bytes-Reading n) s k) (elim [
      | none ↦ λ t g. raised g.sound
      | some ptr ↦ λ t g.
          Returns-mono
            (λ _ u g'. Stores-later g (Stores-mono (λ ns one. rw one (flat low e refl refl)) g'))
            (Storing-add_node _ t g.sound)
    ])
Storing-parse_primitive h indefinite depth e low s k = raised k

module _ (child : Op ParseState (Unit {0})) (rules : EncodingRules) (depth : ℕ)
    (low : depth ≤ max_depth) (one_more : Storing (IsSubtree (depth + 1)) child) where
  Storing-parse_constructed :
      (h : Header) → h.depth ≡ depth → Storing (IsSubtree depth) (parse_constructed child h)
  unfolding parse_constructed
  Storing-parse_constructed h e s k =
      Returns-bind (Storing-add_node (constructed_node h) s k) λ _ t g.
        Returns-bind (Storing-parse_children child (depth + 1) one_more h.length t g.sound)
          λ _ u g'.
            Returns-mono (λ _ _ (f, _). f)
              (finish_node-Stores (constructed_node h) h.start_offset s t u k
                (λ ms (rs, f). nested low e refl refl f) g g')

  Storing-parse_content :
      (h : Header) → h.depth ≡ depth → Storing (IsSubtree depth) (parse_content child h)
  unfolding parse_content
  Storing-parse_content h e s k =
      Returns-if_op (is_indefinite h.length && not h.constructed) _ _ s (λ _. raised k)
        λ _.
          Returns-if_op h.constructed _ _ s (λ _. Storing-parse_constructed h e s k)
            (λ _. Storing-parse_primitive h h.length depth e low s k)

  Storing-parse_tlv : Storing (IsSubtree depth) (parse_tlv child rules depth)
  unfolding parse_tlv
  Storing-parse_tlv s k =
      Returns-bind (Storing-on_buf _ parse_identifier-Reading s k) λ (identifier, c) t g.
        Returns-bind (Storing-on_buf _ (parse_length-Reading rules) t g.sound) λ len u g'.
          Returns-mono (λ _ v g''. Stores-later g (Stores-later g' g''))
            (Storing-parse_content _ refl u g'.sound)

-- The recursion ends at the depth limit, so `levels` below it is not used up.
Storing-parse_node :
    (levels : ℕ) (rules : EncodingRules) (depth : ℕ)
    → max_depth < levels + depth
    → Storing (IsSubtree depth) (parse_node levels rules depth)
unfolding parse_node
Storing-parse_node zero rules depth deep s h =
    Returns-if (ltb max_depth depth) (λ _. raised h) (λ e. absurd (ground arith))
Storing-parse_node (suc levels) rules depth deep s h =
    Returns-if (ltb max_depth depth) (λ _. raised h)
      λ e.
        Storing-parse_tlv (parse_node levels rules (depth + 1)) rules depth (ground arith)
          (Storing-parse_node levels rules (depth + 1) (omega arith)) s h

-- The result's array is as long as its capacity says, and the count fits.
pub record IsFitting (r : ParseResult) : Type 0 where
  pub writable : r.capacity ≤ length r.nodes
  pub filled : r.count ≤ r.capacity

-- The nodes stored from an empty result on.
pub Returns-result_of :
    {r : Outcome Error ParseState (Unit {0})} {P : List Node → Type 0} {s : ParseState}
    → s.result.count ≡ 0
    → Returns (λ _ t. Stores P s t) IsSound r
    → Returns
        (λ _ t. IsFitting t × (t.capacity ≡ s.result.capacity) × P (stored t))
        IsFitting
        (result_of r)
Returns-result_of {P = P} {s} empty (returned {a} {s = t} g) =
    returned (omega (arith, g.sound.writable, g.sound.filled), g.same_capacity, rw only g.shape)
  where
    only : stored t.result ≡ g.added
    only = g.behind ∙ ap (λ n. take n s.result.nodes ++ g.added) empty
Returns-result_of empty (raised h) = raised (omega (arith, h.writable, h.filled))

-- asn1_parse() returns on every input under both rules, with no access outside the input or the
-- array of nodes and with a count within the capacity. Where it succeeds, the nodes that it stored are
-- one subtree in pre-order: the depths begin at 1 and end at the limit, each node is one level below
-- the node that holds it, a primitive node has no others below it, and each size is the number of nodes
-- of the subtree. The input and the array of nodes are as long as the caller says, and the count was
-- within the capacity.
pub asn1_parse-IsSubtree :
    (input : Option Pointer) (len : ℕ) (rules : EncodingRules) (null : Bool) (r : ParseResult)
    → ((d : Pointer) → input ≡ some d → len ≤ length d)
    → IsFitting r
    → Returns
        (λ _ t. IsFitting t × IsSubtree 1 (stored t))
        IsFitting
        (asn1_parse input len rules null r)
unfolding asn1_parse
asn1_parse-IsSubtree none len rules null r readable h = raised h
asn1_parse-IsSubtree (some d) len rules true r readable h = raised h
asn1_parse-IsSubtree (some d) len rules false r readable h =
    Returns-if (len == 0) (λ _. raised h)
      λ _.
        Returns-mono (λ _ t (fits, _, tree). (fits, tree))
          (Returns-result_of {s = start} refl (
            Returns-bind
              (Storing-parse_node max_depth rules 1 (omega arith) start
                (omega (arith, readable d refl)))
              (λ _ t g.
                Returns-mono (λ _ u g'. Stores-ended g g')
                  (Storing-on_buf _ check_trailing-Reading t g.sound))))
  where
    start : ParseState
    start = record { buf = buffer_init d len; result = record r { count = 0 } }
