-- ===== src/SelfTest.antt =====
-- The program main.c beside Parser/: the round trip of one AlgorithmIdentifier. The encoder and the
-- decoder are generated code outside the repository, and parameters here; what is printed is left out.
pub mod Status
use asn.Base.{
  ℕ, ◌+◌, Bool, true, false, Option, none, some, List, [], ◌∷◌, length, ◌==◌, if◌then◌else◌,
  Outcome, done, failed, fault, out_of_fuel,
}
use asn.Error.{Error, Op}
use asn.Parser.Header.{der}
use asn.Parser.Node.{Node, ParseResult, parse_result_init, asn1_parse}
use asn.Iterator.{root_node}
use asn.Serializer.{Serializer, serializer_init}

-- The fields of PKIX1EXPLICIT88_ALGORITHMIDENTIFIER that the program uses: the components in use, and
-- the bytes of the parameters.
pub record AlgorithmIdentifier : Type 0 where
  pub algorithm : List ℕ
  pub has_parameters : Bool
  pub parameters : List ℕ

-- "Create and populate the structure": sha256WithRSAEncryption, with NULL.
abbrev pub original : AlgorithmIdentifier
original = record {
  algorithm = 1 ∷ 2 ∷ 840 ∷ 113549 ∷ 1 ∷ 1 ∷ 11 ∷ [];
  has_parameters = true;
  parameters = 0x05 ∷ 0x00 ∷ [];
}

-- The loop over the components, with `success` so far; the second identifier has as many.
unfoldable pub compare_components : Bool → List ℕ → List ℕ → Bool
compare_components success [] ys = success
compare_components success (x ∷ xs) [] = success
compare_components success (x ∷ xs) (y ∷ ys) =
    compare_components (if x == y then success else false) xs ys

abbrev pub same_flag : Bool → Bool → Bool
same_flag true b = b
same_flag false true = false
same_flag false false = true

-- "Verify the round-trip"
unfoldable pub verify : AlgorithmIdentifier → AlgorithmIdentifier → Bool
unfolding compare_components
verify orig decoded =
    let success =
      if length orig.algorithm == length decoded.algorithm
      then compare_components true orig.algorithm decoded.algorithm
      else false in
    if same_flag orig.has_parameters decoded.has_parameters then success else false

-- The status behind the decoder; `none` is an access outside an array.
unfoldable pub status_decoded : Outcome Error (Unit {0}) AlgorithmIdentifier → Option ℕ
unfolding verify
status_decoded (done decoded s) = some (if verify original decoded then 0 else 1)
status_decoded (failed e s) = some 1
status_decoded fault = none
status_decoded out_of_fuel = none

module _ (encode : AlgorithmIdentifier → Op Serializer (Unit {0}))
    (decode : Node → ParseResult → Outcome Error (Unit {0}) AlgorithmIdentifier) where
  unfoldable pub status_parsed : Outcome Error ParseResult (Unit {0}) → Option ℕ
  unfolding status_decoded
  status_parsed (done a t) = elim (root_node t) [
    | none ↦ some 1
    | some root ↦ status_decoded (decode root t)
  ]
  status_parsed (failed e t) = some 1
  status_parsed fault = none
  status_parsed out_of_fuel = none

  unfoldable pub status_encoded : List Node → Outcome Error Serializer (Unit {0}) → Option ℕ
  unfolding status_parsed
  status_encoded nodes (done a s) =
      status_parsed (asn1_parse (some s.buffer) s.length der false (parse_result_init nodes 64))
  status_encoded nodes (failed e s) = some 1
  status_encoded nodes fault = none
  status_encoded nodes out_of_fuel = none

  -- test_algorithmidentifier_roundtrip()
  unfoldable pub test_roundtrip : List ℕ → List Node → Option ℕ
  unfolding status_encoded
  test_roundtrip buffer nodes = status_encoded nodes (encode original (serializer_init buffer 512))

  -- main(): the exit status is the number of failures.
  unfoldable pub main_status : List ℕ → List Node → Option ℕ
  unfolding test_roundtrip
  main_status buffer nodes = elim (test_roundtrip buffer nodes) [
    | none ↦ none
    | some failed_tests ↦ some (0 + failed_tests)
  ]
