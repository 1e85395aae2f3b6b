-- ===== src/Types/Answers.antt =====
-- The parser and asn1_types.c together: the readers on every node that asn1_parse() stores.
use asn.Base.{
  ℕ, zero, suc, ◌+◌, ◌^◌, ◌≤◌, ◌<◌, ◌≡◌, inl, inr, ap, ◌∙◌, Bool, not, some, List, [], ◌∷◌, length,
  length-append, get_elem?, ◌==◌, ◌&&◌, ◌||◌, arith, All, All-split, IsByte, done, String,
  of_returned, Returns-bind, Returns-mono, Returns-if, returned, raised,
}
use asn.Buffer.{Pointer}
use asn.Identifier.{
  Identifier, identifier_equal, id_boolean, id_null, id_integer, id_bit_string,
  id_object_identifier, id_octet_string,
}
use asn.Parser.Header.{EncodingRules, is_der}
use asn.Parser.Node.{Node, ParseResult, constructed, asn1_parse}
use asn.Parser.Storing.{stored}
use asn.Parser.Totality.{IsFitting}
use asn.Parser.Moves.{Held}
use asn.Parser.Pointers.{asn1_parse-Held}
use asn.Types.Access.{Parsed, expect, is_primitive}
use asn.Types.Boolean.{parse_boolean, parse_null}
use asn.Types.Integer.{parse_integer_bytes, parse_int64, parse_uint64}
use asn.Types.BitString.{parse_bit_string}
use asn.Types.BitString.Safety.{parse_bit_string-Reads}
use asn.Types.Oid.{parse_oid}
use asn.Types.Oid.Safety.{parse_oid-Reads}
use asn.Types.Strings.{parse_octet_string, parse_string}
use asn.Types.Safety.{IsInside, Reads, expect-Reads, byte_at-Reads}
use asn.Types.Decoding.{parse_int64-pattern_of, parse_uint64-number_from}

abbrev pub Reading : {A : Type 0} → Parsed A → Type 0
Reading m = Reads (λ _. Unit {0}) m

-- Every reader returns on the node.
pub record IsAnswered (node : Node) : Type 0 where
  pub boolean : (rules : EncodingRules) → Reading (parse_boolean node rules)
  pub null : Reading (parse_null node)
  pub int64 : Reading (parse_int64 node)
  pub uint64 : Reading (parse_uint64 node)
  pub bit_string : Reading (parse_bit_string node)
  pub oid : Reading (parse_oid node)
  pub octet_string : Reading (parse_octet_string node)
  pub text : Reading (parse_string node)

-- Where the node is constructed, a reader does not go on.
expect-composite :
    {A : Type 0} {P : A → Type 0} (node : Node) (id : Identifier) (a b : String) (rest : Parsed A)
    → node.content_type ≡ constructed
    → Reads P (expect node id a b rest)
unfolding expect
expect-composite node id a b rest composite =
    Returns-if (not (identifier_equal node.identifier id)) (λ _. raised tt)
      (λ _. rw composite (raised tt))

composite-IsAnswered : (node : Node) → node.content_type ≡ constructed → IsAnswered node
unfolding parse_boolean parse_null parse_integer_bytes parse_int64 parse_uint64 parse_bit_string
    parse_oid parse_octet_string parse_string
composite-IsAnswered node composite = record {
  boolean = λ rules.
      expect-composite node id_boolean "Expected BOOLEAN" "BOOLEAN must be primitive" _ composite;
  null = expect-composite node id_null "Expected NULL" "NULL must be primitive" _ composite;
  int64 =
      Returns-bind
        (expect-composite {P = λ b. b.length < 0} node id_integer "Expected INTEGER"
          "INTEGER must be primitive" _ composite)
        (λ b _ e. absurd (omega (arith, e)));
  uint64 =
      Returns-bind
        (expect-composite {P = λ b. b.length < 0} node id_integer "Expected INTEGER"
          "INTEGER must be primitive" _ composite)
        (λ b _ e. absurd (omega (arith, e)));
  bit_string =
      expect-composite node id_bit_string "Expected BIT STRING"
        "Constructed BIT STRING not supported" _ composite;
  oid =
      expect-composite node id_object_identifier "Expected OBJECT IDENTIFIER"
        "OID must be primitive" _ composite;
  octet_string =
      expect-composite node id_octet_string "Expected OCTET STRING"
        "Constructed OCTET STRING not supported" _ composite;
  text = rw composite (raised tt);
}

parse_boolean-Reads :
    (node : Node) (rules : EncodingRules) → IsInside node → Reading (parse_boolean node rules)
unfolding parse_boolean
parse_boolean-Reads node rules h =
    expect-Reads node id_boolean "Expected BOOLEAN" "BOOLEAN must be primitive" _ (
      Returns-if (not (node.data_length == 1)) (λ _. raised tt)
        (λ one. Returns-bind (byte_at-Reads node 0 h (ground arith)) (λ x _ _.
          Returns-if (is_der rules && not (x == 0x00 || x == 0xFF)) (λ _. raised tt)
            (λ _. returned tt))))

parse_null-Reads : (node : Node) → Reading (parse_null node)
unfolding parse_null
parse_null-Reads node =
    expect-Reads node id_null "Expected NULL" "NULL must be primitive" _
      (Returns-if (not (node.data_length == 0)) (λ _. raised tt) (λ _. returned tt))

inside-IsAnswered : (node : Node) → IsInside node → node.data_length < 2 ^ 61 → IsAnswered node
unfolding parse_octet_string parse_string
inside-IsAnswered node h small = record {
  boolean = λ rules. parse_boolean-Reads node rules h;
  null = parse_null-Reads node;
  int64 = Returns-mono (λ _ _ _. tt) (parse_int64-pattern_of node h);
  uint64 = Returns-mono (λ _ _ _. tt) (parse_uint64-number_from node h);
  bit_string = Returns-mono (λ _ _ _. tt) (parse_bit_string-Reads node h small);
  oid = Returns-mono (λ _ _ _. tt) (parse_oid-Reads node h);
  octet_string =
      expect-Reads node id_octet_string "Expected OCTET STRING"
        "Constructed OCTET STRING not supported" _ (returned tt);
  text = Returns-if (not (is_primitive node.content_type)) (λ _. raised tt) (λ _. returned tt);
}

-- A node that the input holds, where its data is short.
Held-IsAnswered :
    (d : Pointer) (node : Node)
    → All IsByte d
    → length d < 2 ^ 61
    → node.data_length < 2 ^ 63
    → Held d node
    → IsAnswered node
Held-IsAnswered d node octets small few (inl composite) = composite-IsAnswered node composite
Held-IsAnswered d node octets small few (inr p) =
    let (_, bytes) = All-split IsByte p.front p.content (rw p.part at octets) in
    let whole : length d ≡ length p.front + length p.content =
      ap length p.part ∙ length-append p.front p.content in
    inside-IsAnswered node
      (record { array = p.content; found = p.found; enough = p.enough few; octets = bytes })
      (omega (arith, p.enough few, whole, small))

All-at :
    (P : Node → Type 0) (ns : List Node) (i : ℕ) (node : Node)
    → All P ns
    → get_elem? ns i ≡ some node
    → P node
All-at P [] i node h e = cc
All-at P (n ∷ ns) zero node (p, h) e = let same : n ≡ node = cc in rw (← same) p
All-at P (n ∷ ns) (suc i) node (p, h) e = All-at P ns i node h e

-- Where asn1_parse() succeeded, under either rules, each reader of asn1_types.c returns a value or an
-- error on each node that it stored with a data_length below half of the address space, whatever its
-- tag and whatever the other nodes are, with no read outside the input. Greater ones, which
-- asn1_buffer_read_bytes() lets through, are not covered. The input is an array of fewer than 2 ^ 61
-- bytes that is as long as the caller says, and the array of nodes is as long as the caller says.
pub asn1_parse-IsAnswered :
    (d : Pointer) (len : ℕ) (rules : EncodingRules) (null : Bool) (r t : ParseResult) (i : ℕ)
    (node : Node)
    → len ≤ length d
    → length d < 2 ^ 61
    → All IsByte d
    → IsFitting r
    → asn1_parse (some d) len rules null r ≡ done tt t
    → get_elem? (stored t) i ≡ some node
    → node.data_length < 2 ^ 63
    → IsAnswered node
asn1_parse-IsAnswered d len rules null r t i node readable small octets h ran at_index few =
    let held =
      of_returned
        (rw ran at (asn1_parse-Held d len rules null r readable (omega (arith, small)) octets h)) in
    Held-IsAnswered d node octets small few (All-at (Held d) (stored t) i node held at_index)
