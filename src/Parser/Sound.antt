-- ===== src/Parser/Sound.antt =====
-- asn1_parser.c: the inputs that asn1_parse() accepts, and the values of the grammar among them.
use asn.Base.{
  ℕ, zero, suc, ◌+◌, ◌^◌, ◌≤◌, ◌<◌, ◌≡◌, ◌↔◌, refl, ap, sym, ◌∙◌, Bool, true, false, some, List, [],
  ◌∷◌, ◌++◌, length, length-append, length-take, take, take-append, drop, ltb, ◌==◌, arith, All,
  All-append, IsByte, Returns, of_returned, done, Returns-bind, Returns-mono, returned, raised,
  Returns-if,
}
use asn.Buffer.{Buffer, Pointer, buffer_init, buffer_remaining}
use asn.Parser.Header.{EncodingRules}
use asn.Parser.Node.{
  Node, ParseResult, ParseState, max_depth, on_buf, parse_node, check_trailing, asn1_parse,
}
use asn.Parser.Grammar.{IsValue, IsValues, flat_value, nested_value, open_value, ended, more}
use asn.Parser.Storing.{IsSound, stored, Stores, IsNone, Stores-mono, Stores-on_buf}
use asn.Parser.Totality.{IsFitting, Returns-result_of, Stores-ended}
use asn.Parser.Yields.{IsArray, Takes-offset, Fits}
use asn.Parser.Meaning.{YieldingOne, MeansOne}
use asn.Parser.Content.{parse_tlv-Yields}

-- The recursion ends at the depth limit, so `levels` below it is not used up.
parse_node-Yields :
    (levels : ℕ) (rules : EncodingRules) (depth : ℕ)
    → max_depth < levels + depth
    → YieldingOne (IsValue rules depth) (parse_node levels rules depth)
unfolding parse_node
parse_node-Yields zero rules depth deep s h =
    Returns-if (ltb max_depth depth) (λ _. raised h) (λ e. absurd (ground arith))
parse_node-Yields (suc levels) rules depth deep s h =
    Returns-if (ltb max_depth depth) (λ _. raised h)
      λ e.
        parse_tlv-Yields rules depth (ground arith) (parse_node levels rules (depth + 1))
          (parse_node-Yields levels rules (depth + 1) (omega arith)) s h

check_trailing-Ends :
    (s : ParseState)
    → IsSound s
    → Returns
        (λ _ t. Stores IsNone s t × (buffer_remaining s.buf ≡ 0))
        IsSound
        (on_buf check_trailing s)
unfolding check_trailing
check_trailing-Ends s h = Stores-on_buf {P = λ _ c. buffer_remaining s.buf ≡ 0} check_trailing s h (
    Returns-if (ltb 0 (buffer_remaining s.buf)) (λ _. raised h.readable)
      (λ e. returned (h.readable, ground arith)))

-- The value takes the whole input.
Means-whole :
    (d : List ℕ) (len : ℕ) (rules : EncodingRules) (b : Buffer) (ns : List Node)
    → IsArray (buffer_init d len)
    → buffer_remaining b ≡ 0
    → MeansOne (IsValue rules 1) (buffer_init d len) b ns
    → Fits ns
    → IsValue rules 1 (take len d) (drop len d) ns
Means-whole d len rules b ns a ended_at (_, f) fits =
    let (xs, took, value) = f a fits in
    let same_input : b.input ≡ d = ap (λ c. c.input) took.end_at in
    let same_length : b.length ≡ len = ap (λ c. c.length) took.end_at in
    let at_end : b.offset ≡ len =
      omega (arith, ended_at, took.inside (omega arith), same_length, a.short) in
    let size : length xs ≡ len = omega (arith, Takes-offset took, at_end) in
    whole_of xs (rw (at_end, same_input) at took.bytes) size (rw (at_end, same_input) at value)
  where
    whole_of :
        (xs : List ℕ)
        → d ≡ xs ++ drop len d
        → length xs ≡ len
        → IsValue rules 1 xs (drop len d) ns
        → IsValue rules 1 (take len d) (drop len d) ns
    whole_of xs e size value =
        let front : take len d ≡ xs =
          ap (λ k. take k d) (sym size) ∙ ap (take (length xs)) e ∙ take-append xs (drop len d) in
        rw front value

-- What a success leaves.
pub asn1_parse-Means :
    (d : Pointer) (len : ℕ) (rules : EncodingRules) (null : Bool) (r : ParseResult)
    → len ≤ length d
    → len < 2 ^ 63
    → All IsByte d
    → IsFitting r
    → Returns
        (λ _ t.
          IsFitting t
          × (t.capacity ≡ r.capacity)
          × (Fits (stored t) → IsValue rules 1 (take len d) (drop len d) (stored t)))
        IsFitting
        (asn1_parse (some d) len rules null r)
unfolding asn1_parse
asn1_parse-Means d len rules true r readable short bytes h = raised h
asn1_parse-Means d len rules false r readable short bytes h =
    Returns-if (len == 0) (λ _. raised h)
      λ _. Returns-result_of {s = start} refl (
        Returns-bind
          (parse_node-Yields max_depth rules 1 (omega arith) start (omega (arith, readable)))
          (λ _ t g.
            Returns-mono
              (λ _ u (g', ended_at).
                Stores-mono (λ ns value. Means-whole d len rules t.buf ns array ended_at value)
                  (Stores-ended g g'))
              (check_trailing-Ends t g.sound)))
  where
    start : ParseState
    start = record { buf = buffer_init d len; result = record r { count = 0 } }

    array : IsArray (buffer_init d len)
    array = record {
      over = record { readable = readable; small = omega (arith, short); octets = bytes };
      short = short;
      inside = omega arith;
    }

mutual
  IsValue-Fits :
      {rules : EncodingRules} {depth : ℕ} {xs rest : List ℕ} {ns : List Node}
      → IsValue rules depth xs rest ns
      → length xs < 2 ^ 63
      → Fits ns
  IsValue-Fits (flat_value head content id low header e f) small =
      rw f (omega (arith, small, ap length e, length-append head content), tt)
  IsValue-Fits (nested_value head content id below low header row e f) small = rw f (
    omega arith,
    IsValues-Fits row (omega (arith, small, ap length e, length-append head content)),
  )
  IsValue-Fits (open_value head content id below low header row e f) small =
      let size = length-append content (0 ∷ 0 ∷ []) in
      rw f (
        omega arith,
        IsValues-Fits row
            (omega (arith, small, ap length e, length-append head (content ++ (0 ∷ 0 ∷ [])), size)),
      )

  IsValues-Fits :
      {rules : EncodingRules} {marked : Bool} {depth : ℕ} {xs rest : List ℕ} {ns : List Node}
      → IsValues rules marked depth xs rest ns
      → length xs < 2 ^ 63
      → Fits ns
  IsValues-Fits ended small = tt
  IsValues-Fits (more xs ys ns ms unmarked value row e f) small =
      let size = length-append xs ys in
      rw f (
        All-append (λ n. n.data_length < 2 ^ 63) ns ms
          (IsValue-Fits value (omega (arith, small, ap length e, size)))
          (IsValues-Fits row (omega (arith, small, ap length e, size))))

-- Where asn1_parse() succeeds, under either rules, the whole input is one value of the grammar of the
-- rules and the stored nodes are those of this value exactly where each stored node has a data_length
-- below half of the address space. asn1_buffer_read_bytes() lets greater ones through, and an input
-- with such a node is accepted and is no value. In a value each node has the tag that the bytes of
-- its identifier give, points to the value and to the content, and counts the nodes of its subtree;
-- under DER each length is as asn1_encode_length() writes it. The input is an array of bytes that is
-- as long as the caller says and less than half of the address space, and the array of nodes is as
-- long as the caller says.
pub asn1_parse-IsValue :
    (d : Pointer) (len : ℕ) (rules : EncodingRules) (null : Bool) (r t : ParseResult)
    → len ≤ length d
    → len < 2 ^ 63
    → All IsByte d
    → IsFitting r
    → asn1_parse (some d) len rules null r ≡ done tt t
    → IsValue rules 1 (take len d) (drop len d) (stored t) ↔ Fits (stored t)
asn1_parse-IsValue d len rules null r t readable short octets h ran =
    let (_, _, value) =
      of_returned (rw ran at (asn1_parse-Means d len rules null r readable short octets h)) in
    ((λ v. IsValue-Fits v (omega (arith, length-take len d readable, short))), value)
