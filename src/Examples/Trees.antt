-- ===== src/Examples/Trees.antt =====
-- Whole values: parsing and serializing.
use asn.Base.{◌≤◌, ◌<◌, ◌≡◌, refl, false, some, some, [], ◌∷◌, length, done, arith, take, splice}
use asn.Parser.Header.{der, ber}
use asn.Parser.Node.{ParseResult, asn1_parse}
use asn.Parser.RoundTrip.{CanHold, asn1_parse-encode}
use asn.Serializer.{Serializer, serializer_init}
use asn.Serializer.TreeRun.{serialize_tree, Writes, serialize_tree-Writes, peak, IsShort}
use asn.Iterator.{NodeIterator, children}
use asn.Iterator.Roots.{child_roots}
use asn.Iterator.Children.{Visits, asn1_parse-children}
use asn.RoundTrip.{asn1_parse-serialize_tree, serializer_init-Holds}
use asn.Tree.{encode, size, height, HasTags, nodes}
use asn.Encoding.{encode_length, encode_identifier}
use asn.Examples.Samples.{sample, four_cells, zeros}

sample_bytes :
    encode sample ≡ 0x30 ∷ 0x0b ∷ 2 ∷ 1 ∷ 42 ∷ 0xbf ∷ 0x81 ∷ 0x49 ∷ 4 ∷ 4 ∷ 2 ∷ 0 ∷ 255 ∷ []
unfolding encode encode_length encode_identifier
sample_bytes = refl

sample-CanHold : CanHold four_cells (size sample)
unfolding size
sample-CanHold = omega arith

sample-height : height sample < 50
unfolding height
sample-height = omega arith

sample-HasTags : HasTags sample
unfolding HasTags
sample-HasTags = omega arith

sample-peak : peak sample ≤ 24
unfolding peak encode encode_length encode_identifier
sample-peak = omega arith

sample-IsShort : IsShort sample
unfolding IsShort encode encode_length encode_identifier
sample-IsShort = omega arith

asn1_parse-encode_example :
    asn1_parse (some (encode sample)) (length (encode sample)) der false four_cells
    ≡ done tt (record four_cells {
      nodes = splice four_cells.nodes 0 (nodes sample 1 []);
      count = size sample;
    })
asn1_parse-encode_example =
    asn1_parse-encode sample der four_cells sample-height sample-HasTags
      (rw sample_bytes (omega arith)) sample-CanHold

serialize_tree-Writes_example :
    Writes (serialize_tree sample) (serializer_init zeros 24) [] (encode sample)
serialize_tree-Writes_example =
    serialize_tree-Writes sample (serializer_init zeros 24) []
      (serializer_init-Holds zeros 24 (omega arith) (omega arith)) sample-IsShort
      (omega (arith, sample-peak))

asn1_parse-serialize_tree_example :
    (u : Serializer) × (serialize_tree sample (serializer_init zeros 24) ≡ done tt u)
    × (take u.length u.buffer ≡ encode sample)
    × (asn1_parse (some (take u.length u.buffer)) u.length der false four_cells
        ≡ done tt (record four_cells {
          nodes = splice four_cells.nodes 0 (nodes sample 1 []);
          count = size sample;
        }))
asn1_parse-serialize_tree_example =
    asn1_parse-serialize_tree sample zeros 24 der four_cells (omega arith) (omega arith) sample-peak
      sample-IsShort sample-height sample-HasTags sample-CanHold

asn1_parse-children_example :
    (u : ParseResult) × (asn1_parse
        (some (encode sample))
        (length (encode sample))
        ber
        false
        four_cells
      ≡ done tt u)
    × (it : NodeIterator) × (children u 0 ≡ done it tt)
    × Visits it (child_roots sample 1 [])
asn1_parse-children_example =
    asn1_parse-children sample ber four_cells sample-height sample-HasTags
      (rw sample_bytes (omega arith)) sample-CanHold
