-- ===== src/Examples/Wrapped.antt =====
-- An input with a length for which the sum of asn1_buffer_read_bytes() wraps: asn1_parse() accepts it
-- under DER, it is no value of the grammar, and a reader of the node leaves the input.
use asn.Base.{
  ◌≡◌, refl, List, ℕ, [], ◌∷◌, ◌-◌, ◌^◌, some, none, done, fault, false, take, drop, arith, All,
  IsByte,
}
use asn.Identifier.{id_sequence, id_object_identifier, private}
use asn.Parser.Header.{der}
use asn.Parser.Node.{Node, ParseResult, asn1_parse, primitive, constructed}
use asn.Parser.Grammar.{IsValue}
use asn.Parser.Storing.{stored}
use asn.Parser.Sound.{asn1_parse-IsValue}
use asn.Types.Oid.{parse_oid}
use asn.Examples.Samples.{blank, four_cells}

-- A sequence of 12 bytes with an object identifier of 2 ^ 64 - 1, and two bytes behind its header.
abbrev wrapped : List ℕ
wrapped = 0x30 ∷ 12 ∷ 6 ∷ 0x88 ∷ 255 ∷ 255 ∷ 255 ∷ 255 ∷ 255 ∷ 255 ∷ 255 ∷ 255 ∷ 0x1F ∷ 0 ∷ []

abbrev oversized : Node
oversized = record {
  identifier = id_object_identifier;
  content_type = primitive;
  encoded_bytes = drop 2 wrapped;
  encoded_length = 9;
  data_bytes = some (drop 12 wrapped);
  data_length = 2 ^ 64 - 1;
  depth = 2;
  subtree_size = 1;
}

-- What the last three bytes are taken for.
abbrev behind : Node
behind = record {
  identifier = record { tag_number = 31; tag_class = private };
  content_type = constructed;
  encoded_bytes = drop 11 wrapped;
  encoded_length = 3;
  data_bytes = none;
  data_length = 0;
  depth = 2;
  subtree_size = 1;
}

abbrev outer : Node
outer = record {
  identifier = id_sequence;
  content_type = constructed;
  encoded_bytes = wrapped;
  encoded_length = 14;
  data_bytes = none;
  data_length = 0;
  depth = 1;
  subtree_size = 3;
}

abbrev wrapped_nodes : ParseResult
wrapped_nodes = record four_cells { nodes = outer ∷ oversized ∷ behind ∷ blank ∷ []; count = 3 }

wrapped-parsed : asn1_parse (some wrapped) 14 der false four_cells ≡ done tt wrapped_nodes
unfolding asn1_parse
wrapped-parsed = refl

wrapped-bytes : All IsByte wrapped
wrapped-bytes = omega arith

wrapped_outside_grammar : ¬ IsValue der 1 (take 14 wrapped) (drop 14 wrapped) (stored wrapped_nodes)
wrapped_outside_grammar value =
    let fits =
      (asn1_parse-IsValue wrapped 14 der false four_cells wrapped_nodes (omega arith) (omega arith)
          wrapped-bytes (omega arith) wrapped-parsed).0
        value in
    absurd (omega arith)

wrapped_read_outside : parse_oid oversized ≡ fault
unfolding parse_oid
wrapped_read_outside = refl
