-- ===== src/Examples/Samples.antt =====
-- The data of the examples: a tree with a long tag, arrays of blank nodes and a buffer.
use asn.Base.{ℕ, ◌≡◌, refl, done, false, some, none, List, [], ◌∷◌}
use asn.Parser.Header.{ber}
use asn.Identifier.{universal_tag, asn1_context_tag, id_sequence, id_integer, id_octet_string}
use asn.Parser.Node.{Node, ParseResult, parse_result_init, asn1_parse, primitive, constructed}
use asn.Tree.{Tree, leaf, branch, nil, cons}

abbrev pub blank : Node
blank = record {
  identifier = universal_tag 0;
  content_type = primitive;
  encoded_bytes = [];
  encoded_length = 0;
  data_bytes = none;
  data_length = 0;
  depth = 0;
  subtree_size = 0;
}

abbrev pub four_cells : ParseResult
four_cells = parse_result_init (blank ∷ blank ∷ blank ∷ blank ∷ []) 4

-- SEQUENCE { INTEGER 42, [201] { OCTET STRING 00FF } }
abbrev pub sample : Tree
sample = branch id_sequence (
    cons (leaf id_integer (42 ∷ []))
      (cons (branch (asn1_context_tag 201) (cons (leaf id_octet_string (0 ∷ 255 ∷ [])) nil)) nil))

abbrev pub zeros : List ℕ
zeros =
    0 ∷ 0 ∷ 0 ∷ 0 ∷ 0 ∷ 0 ∷ 0 ∷ 0 ∷ 0 ∷ 0 ∷ 0 ∷ 0 ∷ 0 ∷ 0 ∷ 0 ∷ 0 ∷ 0 ∷ 0 ∷ 0 ∷ 0 ∷ 0 ∷ 0 ∷ 0 ∷ 0
    ∷ []

-- A sequence of indefinite length that holds an octet string.
abbrev pub open_sequence : List ℕ
open_sequence = 0x30 ∷ 0x80 ∷ 4 ∷ 1 ∷ 7 ∷ 0 ∷ 0 ∷ []

abbrev pub two_nodes : ParseResult
two_nodes = record four_cells {
  nodes =
      record {
        identifier = id_sequence;
        content_type = constructed;
        encoded_bytes = open_sequence;
        encoded_length = 7;
        data_bytes = none;
        data_length = 0;
        depth = 1;
        subtree_size = 2;
      }
      ∷ record {
        identifier = id_octet_string;
        content_type = primitive;
        encoded_bytes = 4 ∷ 1 ∷ 7 ∷ 0 ∷ 0 ∷ [];
        encoded_length = 3;
        data_bytes = some (7 ∷ 0 ∷ 0 ∷ []);
        data_length = 1;
        depth = 2;
        subtree_size = 1;
      }
      ∷ blank
      ∷ blank
      ∷ [];
  count = 2;
}

pub open_sequence-parsed :
    asn1_parse (some open_sequence) 7 ber false four_cells ≡ done tt two_nodes
unfolding asn1_parse
open_sequence-parsed = refl
