-- ===== src/Examples/Stored.antt =====
-- What the parser stores for inputs that the serializer does not write, and calls without room.
use asn.Base.{◌≡◌, refl, false, some, [], arith, Returns}
use asn.Parser.Header.{ber}
use asn.Parser.Node.{asn1_parse}
use asn.Parser.Shape.{IsSubtree}
use asn.Parser.Storing.{stored}
use asn.Parser.Totality.{IsFitting, asn1_parse-IsSubtree}
use asn.Iterator.Subtrees.{Browses, asn1_parse-Browses}
use asn.Serializer.{serializer_init}
use asn.Serializer.TreeRun.{serialize_tree, peak, IsShort}
use asn.Serializer.Refusals.{Refuses, serialize_tree-Refuses}
use asn.RoundTrip.{serializer_init-Holds}
use asn.Tree.{encode}
use asn.Encoding.{encode_length, encode_identifier}
use asn.Examples.Samples.{open_sequence, two_nodes, open_sequence-parsed, sample, four_cells, zeros}

asn1_parse-IsSubtree_example :
    Returns
      (λ _ t. IsFitting t × IsSubtree 1 (stored t))
      IsFitting
      (asn1_parse (some open_sequence) 7 ber false four_cells)
asn1_parse-IsSubtree_example =
    asn1_parse-IsSubtree (some open_sequence) 7 ber false four_cells (λ d e. ground arith)
      (omega arith)

asn1_parse-Browses_example : Browses two_nodes 0
asn1_parse-Browses_example =
    asn1_parse-Browses open_sequence 7 ber four_cells two_nodes 0 (omega arith) (omega arith)
      open_sequence-parsed (omega arith) (omega arith)

sample-peak_eq : peak sample ≡ 21
unfolding peak encode encode_length encode_identifier
sample-peak_eq = refl

sample-IsShort : IsShort sample
unfolding IsShort encode encode_length encode_identifier
sample-IsShort = omega arith

serialize_tree-Refuses_example : Refuses (serialize_tree sample) (serializer_init zeros 20) []
serialize_tree-Refuses_example =
    serialize_tree-Refuses sample (serializer_init zeros 20) []
      (serializer_init-Holds zeros 20 (omega arith) (omega arith)) sample-IsShort
      (omega (arith, sample-peak_eq)) (omega (arith, sample-peak_eq))
