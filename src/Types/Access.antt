-- ===== src/Types/Access.antt =====
-- The parts that the parsers of asn1_types.c share: the tests on a node and the reads of its data.
use asn.Base.{
  ℕ, Bool, true, false, not, Option, none, some, get_elem?, if◌then◌else◌, Outcome, done, failed,
  String,
}
use asn.Error.{Error, ErrorCode, asn1_error, unexpected_field_type, invalid_object}
use asn.Identifier.{Identifier, identifier_equal}
use asn.Parser.Node.{Node, ContentType, primitive, constructed}

-- What a parser returns: it leaves no state.
abbrev pub Parsed : Type 0 → Type 0
Parsed A = Outcome Error (Unit {0}) A

abbrev pub ok : {A : Type 0} → A → Parsed A
ok a = done a tt

-- `return asn1_error(code, message, 0);`
abbrev pub error : {A : Type 0} → ErrorCode → String → Parsed A
error c m = failed (asn1_error c m 0) tt

abbrev pub is_primitive : ContentType → Bool
is_primitive primitive = true
is_primitive constructed = false

-- `node->data_bytes[i]`
unfoldable pub byte_at : Node → ℕ → Option ℕ
byte_at node i = elim node.data_bytes [ none ↦ none | some p ↦ get_elem? p i ]

-- The two tests that open each parser: on the identifier and on the content type.
unfoldable pub expect : {A : Type 0} → Node → Identifier → String → String → Parsed A → Parsed A
unfolding identifier_equal
expect node id unexpected composite rest =
    if not (identifier_equal node.identifier id)
    then error unexpected_field_type unexpected
    else (if not (is_primitive node.content_type) then error invalid_object composite else rest)
