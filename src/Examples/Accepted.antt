-- ===== src/Examples/Accepted.antt =====
-- What the parser accepts, and the readers on what it stores.
use asn.Base.{
  ◌≡◌, ◌↔◌, some, [], refl, ℕ, List, ◌∷◌, done, splice, false, arith, All, IsByte, take, drop,
}
use asn.Parser.Header.{ber, der}
use asn.Parser.Grammar.{IsValue, flat_node, nested_node}
use asn.Parser.Storing.{stored}
use asn.Parser.Yields.{Fits}
use asn.Parser.Sound.{asn1_parse-IsValue}
use asn.Identifier.{id_sequence, id_integer, id_octet_string}
use asn.Parser.Lenient.{asn1_parse-der_ber}
use asn.Parser.Complete.{asn1_parse-value}
use asn.Parser.Node.{asn1_parse, Node, ParseResult}
use asn.Types.Answers.{IsAnswered, asn1_parse-IsAnswered}
use asn.Examples.Samples.{blank, four_cells, open_sequence, two_nodes, open_sequence-parsed}

open_sequence-bytes : All IsByte open_sequence
open_sequence-bytes = (
  omega arith,
  (omega arith, (omega arith, (omega arith, (omega arith, (omega arith, (omega arith, tt)))))),
)

asn1_parse-IsValue_example :
    IsValue ber 1 (take 7 open_sequence) (drop 7 open_sequence) (stored two_nodes)
    ↔ Fits (stored two_nodes)
asn1_parse-IsValue_example =
    asn1_parse-IsValue open_sequence 7 ber false four_cells two_nodes (omega arith) (omega arith)
      open_sequence-bytes (omega arith) open_sequence-parsed

abbrev octet_node : Node
octet_node = flat_node id_octet_string 2 (4 ∷ 1 ∷ 7 ∷ []) (7 ∷ []) (0 ∷ 0 ∷ [])

asn1_parse-IsAnswered_example : IsAnswered octet_node
asn1_parse-IsAnswered_example =
    asn1_parse-IsAnswered open_sequence 7 ber false four_cells two_nodes 1 octet_node (omega arith)
      (omega arith) open_sequence-bytes (omega arith) open_sequence-parsed refl (omega arith)

open_sequence-IsValue : IsValue ber 1 open_sequence [] (stored two_nodes)
open_sequence-IsValue =
    (asn1_parse-IsValue open_sequence 7 ber false four_cells two_nodes (omega arith) (omega arith)
        open_sequence-bytes (omega arith) open_sequence-parsed).1
      (omega arith, (omega arith, tt))

asn1_parse-value_example :
    asn1_parse (some open_sequence) 7 ber false four_cells
    ≡ done tt
        (record four_cells { nodes = splice four_cells.nodes 0 (stored two_nodes); count = 2 })
asn1_parse-value_example =
    asn1_parse-value open_sequence ber four_cells (stored two_nodes) open_sequence-IsValue
      (omega arith) open_sequence-bytes (omega arith)

-- A sequence that holds an integer, which both rules accept.
abbrev small_sequence : List ℕ
small_sequence = 0x30 ∷ 3 ∷ 2 ∷ 1 ∷ 42 ∷ []

abbrev inner : Node
inner = flat_node id_integer 2 (2 ∷ 1 ∷ 42 ∷ []) (42 ∷ []) []

abbrev small_nodes : ParseResult
small_nodes = record four_cells {
  nodes = nested_node id_sequence 1 small_sequence [] (inner ∷ []) ∷ inner ∷ blank ∷ blank ∷ [];
  count = 2;
}

small_sequence-parsed :
    asn1_parse (some small_sequence) 5 der false four_cells ≡ done tt small_nodes
unfolding asn1_parse
small_sequence-parsed = refl

asn1_parse-der_ber_example :
    asn1_parse (some small_sequence) 5 ber false four_cells ≡ done tt small_nodes
asn1_parse-der_ber_example =
    asn1_parse-der_ber small_sequence four_cells small_nodes (omega arith)
      (omega arith, (omega arith, (omega arith, (omega arith, (omega arith, tt))))) (omega arith)
      (omega arith) small_sequence-parsed (omega arith, (omega arith, tt))
