-- ===== src/Examples/Programs.antt =====
-- The programs beside the library, with small encoders and decoders.
use asn.Base.{
  ℕ, suc, ◌+◌, ◌≡◌, refl, ap, zero, get_elem?, bind, failed, true, false, Option, none, some, List,
  [], ◌∷◌, ◌++◌, length, arith, Outcome, done, ◌↔◌,
}
use mathlib.Core.Option
use asn.Error.{Error, Op, asn1_error, invalid_object}
use asn.Types.Oid.{parse_oid}
use asn.Identifier.{id_sequence, id_object_identifier, id_null}
use asn.Parser.Header.{der}
use asn.Parser.Node.{Node, ParseResult, parse_result_init, asn1_parse}
use asn.Serializer.{Serializer, constructed_begin, constructed_end, serialize_primitive}
use asn.Iterator.{root_node}
use asn.Serializer.TreeRun.{serialize_tree}
use asn.Tree.{Tree, leaf, branch, nil, cons, encode}
use asn.Encoding.{encode_length, encode_identifier}
use asn.SelfTest.{AlgorithmIdentifier, main_status}
use asn.SelfTest.Status.{IsRoundTrip, main_status-IsRoundTrip}
use asn.Client.Digest.{zero_bytes}
use asn.Client.Answer.{delimiter, read_response}
use asn.Client.Split.{IsAnswer, read_response-IsAnswer}
use asn.Client.Exchange.{Network, talk}
use asn.Client.Sent.{bytes_sent}
use asn.Examples.Messages.{header, blanks}

-- AlgorithmIdentifier as a sequence of the identifier and NULL.
abbrev algorithm_tree : Tree
algorithm_tree = branch id_sequence (
    cons (leaf id_object_identifier (0x2A ∷ 0x86 ∷ 0x48 ∷ 0x86 ∷ 0xF7 ∷ 0x0D ∷ 1 ∷ 1 ∷ 11 ∷ []))
      (cons (leaf id_null []) nil))

abbrev write_algorithm : AlgorithmIdentifier → Op Serializer (Unit {0})
write_algorithm a = serialize_tree algorithm_tree

abbrev read_algorithm : Node → ParseResult → Outcome Error (Unit {0}) AlgorithmIdentifier
read_algorithm root t = elim (get_elem? t.nodes 1) [
  | none ↦ failed (asn1_error invalid_object "No identifier" 0) tt
  | some node ↦ bind (parse_oid node) (λ components _.
      done (record { algorithm = components; has_parameters = true; parameters = [] }) tt)
]

main_status-run : main_status write_algorithm read_algorithm (zero_bytes 512) (blanks 64) ≡ some 0
unfolding main_status parse_oid serialize_tree asn1_parse encode constructed_begin encode_identifier
    serialize_primitive encode_length constructed_end root_node
main_status-run = refl

main_status-IsRoundTrip_example :
    (main_status write_algorithm read_algorithm (zero_bytes 512) (blanks 64) ≡ some 0)
    ↔ IsRoundTrip write_algorithm read_algorithm (zero_bytes 512) (blanks 64)
main_status-IsRoundTrip_example =
    main_status-IsRoundTrip write_algorithm read_algorithm (zero_bytes 512) (blanks 64)

abbrev answer_head : List ℕ
answer_head = 79 ∷ 75 ∷ []

-- "OK", an empty line and NULL; the array holds another empty line behind it.
abbrev accepts : Option Node → ParseResult → Outcome Error (Unit {0}) (Unit {0})
accepts root t = done tt tt

length-blanks : (n : ℕ) → length (blanks n) ≡ n
length-blanks zero = refl
length-blanks (suc n) = ap suc (length-blanks n)

abbrev null_body : List ℕ
null_body = 5 ∷ 0 ∷ []

abbrev behind : List ℕ
behind = delimiter ++ (1 ∷ 2 ∷ [])

read_response-IsAnswer_example :
    IsAnswer accepts true
      (asn1_parse
        (some (null_body ++ behind))
        (length null_body)
        der
        false
        (parse_result_init (blanks 512) 512))
      (read_response accepts true
        (blanks 512)
        (answer_head ++ (delimiter ++ (null_body ++ behind)))
        (some (length answer_head + 4 + length null_body)))
read_response-IsAnswer_example =
    read_response-IsAnswer accepts true (blanks 512) answer_head null_body behind
      (omega arith, refl, (omega arith, refl, tt)) (omega arith) (omega arith)
      (omega (arith, length-blanks 512))

-- The server takes the request and closes the connection without an answer.
abbrev silent : Network
silent = record {
  has_socket = true;
  has_host = true;
  connects = true;
  header_sent = some 38;
  body_sent = some 3;
  received = some 0;
  response = [];
}

-- The server takes ten bytes of the header: the rest is not sent.
abbrev slow : Network
slow = record silent { header_sent = some 10 }

slow_sent :
    Option.map
      (λ e. length (bytes_sent e.actions))
      (talk accepts true (blanks 2) slow (encode header) (length (encode header)))
    ≡ some 13
unfolding talk encode encode_length encode_identifier
slow_sent = refl
