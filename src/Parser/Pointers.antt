-- ===== src/Parser/Pointers.antt =====
-- asn1_parser.c: every node that asn1_parse() stores points into the input, whatever lengths wrap.
use asn.Base.{
  ℕ, zero, suc, ◌+◌, ◌^◌, ◌≤◌, ◌<◌, ◌≡◌, inl, inr, refl, sym, Bool, true, false, not, ◌&&◌, none,
  some, List, [], ◌∷◌, ◌++◌, length, length-append, take, drop, take-drop, ltb, ◌==◌, arith, All,
  IsByte, sub_size, Returns, Returns-bind, Returns-mono, raised, Returns-if, Returns-if_op,
}
use asn.Error.{Op}
use asn.Buffer.{Buffer, Pointer, buffer_init, read_bytes}
use asn.Parser.Header.{EncodingRules, Length, definite, indefinite}
use asn.Parser.Node.{
  Node, ParseResult, ParseState, Header, max_depth, parse_primitive, parse_constructed,
  parse_content, parse_tlv, parse_node, asn1_parse, constructed_node, primitive_node, is_indefinite,
}
use asn.Parser.Storing.{
  stored, Stores-trans, Stores-mono, Stores-later, Stores-on_buf, Stores-add_node,
  finish_node-Stores,
}
use asn.Parser.Totality.{IsFitting, Returns-result_of}
use asn.Parser.Yields.{IsArray}
use asn.Parser.SafeRows.{
  SafeOne, SafelyOne, Stores-Safe, one_before, check_trailing-Moving, parse_children-Safe,
}
use asn.Parser.Moves.{
  Held, Moves, Moving-Safe, Safe, Safe-append, parse_identifier-Moving, parse_length-Moving,
  read_bytes-Points,
}

primitive-SafeOne :
    {b c c' : Buffer} {ns : List Node} (h : Header) (n len : ℕ) (ptr : Pointer)
    → Moves b c
    → ptr ≡ drop b.offset b.input
    → (IsArray b → n < 2 ^ 63 → n ≤ length ptr)
    → c' ≡ c
    → ns ≡ primitive_node h ptr n len ∷ []
    → SafeOne b c' ns
primitive-SafeOne {b} h n len ptr moves start enough here one = (
  rw one (omega arith),
  λ a.
      let (a', same) = moves a in
      (
        rw here a',
        rw here same,
        rw one (
          inr (record {
            front = take b.offset b.input;
            content = ptr;
            found = refl;
            part = rw start (sym (take-drop b.offset b.input));
            enough = enough a;
          }),
          tt,
        ),
      ),
)

parse_primitive-Safe : (h : Header) (len : Length) → SafelyOne (parse_primitive h len)
unfolding parse_primitive
parse_primitive-Safe h (definite n) s k =
    Returns-bind
      (Stores-on_buf
        {P = λ p c.
          Moves s.buf c
          × ((ptr : Pointer)
              → p ≡ some ptr
              → (ptr ≡ drop s.buf.offset s.buf.input)
                × (IsArray s.buf → n < 2 ^ 63 → n ≤ length ptr))}
        (read_bytes n) s k (read_bytes-Points s.buf n k.readable))
      (elim [
        | none ↦ λ t (g, f). raised g.sound
        | some ptr ↦ λ t (g, (moves, f)).
            let (start, enough) = f ptr refl in
            Returns-mono
              (λ _ u (g', same). Stores-later g (
                Stores-mono
                  (λ ns one.
                    primitive-SafeOne h n (sub_size t.buf.offset h.start_offset) ptr moves start
                      enough same one)
                  g'))
              (Stores-add_node (primitive_node h ptr n (sub_size t.buf.offset h.start_offset)) t
                g.sound)
      ])
parse_primitive-Safe h indefinite s k = raised k

module _ (child : Op ParseState (Unit {0})) (rules : EncodingRules)
    (one_more : SafelyOne child) where
  parse_constructed-Safe : (h : Header) → SafelyOne (parse_constructed child h)
  unfolding parse_constructed
  parse_constructed-Safe h s k =
      Returns-bind (Stores-add_node (constructed_node h) s k) λ _ t (g, same).
        Returns-bind (parse_children-Safe child one_more h.length t g.sound) λ _ u g'.
          Returns-mono (λ _ v (g'', same'). rw (← same') at g'')
            (finish_node-Stores {Q = SafeOne s.buf u.buf} (constructed_node h) h.start_offset s t u
              k
              (λ ms row. (
                omega arith,
                λ a.
                    let (a', i, below) = row (rw same a) in
                    (a', rw same at i, (inl refl, rw same at below)),
              ))
              g g')

  parse_content-Safe : (h : Header) → SafelyOne (parse_content child h)
  unfolding parse_content
  parse_content-Safe h s k =
      Returns-if_op (is_indefinite h.length && not h.constructed) _ _ s (λ _. raised k)
        λ _.
          Returns-if_op h.constructed _ _ s (λ _. parse_constructed-Safe h s k)
            (λ _. parse_primitive-Safe h h.length s k)

  parse_tlv-Safe : (depth : ℕ) → SafelyOne (parse_tlv child rules depth)
  unfolding parse_tlv
  parse_tlv-Safe depth s k =
      Returns-bind (Moving-Safe _ parse_identifier-Moving s k) λ (identifier, c) t g.
        Returns-bind (Moving-Safe _ (parse_length-Moving rules) t g.sound) λ len u g'.
          Returns-mono (λ _ v g''. Stores-trans behind (Stores-Safe g g') g'')
            (parse_content-Safe _ u g'.sound)
    where
      behind :
          {b c d : Buffer} (ns ms : List Node)
          → Safe b c ns
          → SafeOne c d ms
          → SafeOne b d (ns ++ ms)
      behind ns ms f (pos, g) = (omega (arith, pos, length-append ns ms), Safe-append ns ms f g)

-- The recursion ends at the depth limit, so `levels` below it is not used up.
parse_node-Safe :
    (levels : ℕ) (rules : EncodingRules) (depth : ℕ)
    → max_depth < levels + depth
    → SafelyOne (parse_node levels rules depth)
unfolding parse_node
parse_node-Safe zero rules depth deep s h =
    Returns-if (ltb max_depth depth) (λ _. raised h) (λ e. absurd (ground arith))
parse_node-Safe (suc levels) rules depth deep s h =
    Returns-if (ltb max_depth depth) (λ _. raised h)
      λ _.
        parse_tlv-Safe (parse_node levels rules (depth + 1)) rules
          (parse_node-Safe levels rules (depth + 1) (omega arith)) depth s h

-- What a success leaves.
pub asn1_parse-Held :
    (d : Pointer) (len : ℕ) (rules : EncodingRules) (null : Bool) (r : ParseResult)
    → len ≤ length d
    → len < 2 ^ 63
    → All IsByte d
    → IsFitting r
    → Returns (λ _ t. All (Held d) (stored t)) IsFitting (asn1_parse (some d) len rules null r)
unfolding asn1_parse
asn1_parse-Held d len rules true r readable short bytes h = raised h
asn1_parse-Held d len rules false r readable short bytes h =
    Returns-if (len == 0) (λ _. raised h)
      λ _.
        Returns-mono (λ _ t (_, _, held). held)
          (Returns-result_of {s = start} refl (
            Returns-bind
              (parse_node-Safe max_depth rules 1 (omega arith) start (omega (arith, readable)))
              (λ _ t g.
                Returns-mono (λ _ u g'. Stores-mono only (Stores-trans one_before g g'))
                  (Moving-Safe _ check_trailing-Moving t g.sound))))
  where
    start : ParseState
    start = record { buf = buffer_init d len; result = record r { count = 0 } }

    array : IsArray (buffer_init d len)
    array = record {
      over = record { readable = readable; small = omega (arith, short); octets = bytes };
      short = short;
      inside = omega arith;
    }

    only : {c : Buffer} (ns : List Node) → Safe (buffer_init d len) c ns → All (Held d) ns
    only ns f = let (_, _, held) = f array in held
