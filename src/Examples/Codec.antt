-- ===== src/Examples/Codec.antt =====
-- Identifiers and lengths.
use asn.Parser.Canonical.{IsOver, IsCanonical, parse_length-IsCanonical}
use asn.Base.{Returns, ℕ, ◌≡◌, refl, true, List, [], ◌∷◌, ◌++◌, length, done, arith}
use asn.Identifier.{asn1_context_tag}
use asn.Buffer.{Buffer, buffer_init}
use asn.Buffer.Reads.{IsBefore, IsBefore-init, advance}
use asn.Parser.Header.{der, definite, parse_length, parse_identifier}
use asn.Parser.LengthCodec.{parse_length-encode_length}
use asn.Parser.TagCodec.{parse_identifier-encode_identifier}
use asn.Encoding.{encode_length, encode_identifier, length_bytes_needed, identifier_bytes_needed}
use asn.Encoding.Octets.{length-encode_length, length-encode_identifier}

length_300 : encode_length 300 ≡ 0x82 ∷ 1 ∷ 0x2c ∷ []
unfolding encode_length
length_300 = refl

tag_201 : encode_identifier (asn1_context_tag 201) true ≡ 0xbf ∷ 0x81 ∷ 0x49 ∷ []
unfolding encode_identifier
tag_201 = refl

abbrev length_bytes : List ℕ
length_bytes = 0x82 ∷ 1 ∷ 0x2c ∷ 7 ∷ []

length_bytes-IsBefore : IsBefore (buffer_init length_bytes 4) (encode_length 300 ++ 7 ∷ [])
length_bytes-IsBefore = rw length_300 (IsBefore-init length_bytes (omega arith))

parse_length-encode_length_example :
    parse_length der (buffer_init length_bytes 4)
    ≡ done (definite 300) (advance (buffer_init length_bytes 4) (length (encode_length 300)))
parse_length-encode_length_example =
    parse_length-encode_length der 300 (buffer_init length_bytes 4) (7 ∷ []) (omega arith)
      length_bytes-IsBefore

abbrev tag_bytes : List ℕ
tag_bytes = 0xbf ∷ 0x81 ∷ 0x49 ∷ []

tag_bytes-IsBefore :
    IsBefore (buffer_init tag_bytes 3) (encode_identifier (asn1_context_tag 201) true ++ [])
tag_bytes-IsBefore = rw tag_201 (IsBefore-init tag_bytes (omega arith))

parse_identifier-encode_identifier_example :
    parse_identifier (buffer_init tag_bytes 3)
    ≡ done
        (asn1_context_tag 201, true)
        (advance (buffer_init tag_bytes 3) (length (encode_identifier (asn1_context_tag 201) true)))
parse_identifier-encode_identifier_example =
    parse_identifier-encode_identifier (asn1_context_tag 201) true (buffer_init tag_bytes 3) []
      (omega arith) tag_bytes-IsBefore

length-encode_length_example : length (encode_length 300) ≡ length_bytes_needed 300
length-encode_length_example = length-encode_length 300

length-encode_identifier_example :
    length (encode_identifier (asn1_context_tag 201) true)
    ≡ identifier_bytes_needed (asn1_context_tag 201)
length-encode_identifier_example = length-encode_identifier (asn1_context_tag 201) true

abbrev long_form : Buffer
long_form = record { input = 0x81 ∷ 200 ∷ 5 ∷ []; length = 3; offset = 0 }

long_form-IsOver : IsOver long_form
long_form-IsOver = omega arith

parse_length-IsCanonical_example :
    Returns (IsCanonical [] long_form) (λ _. Unit) (parse_length der long_form)
parse_length-IsCanonical_example = parse_length-IsCanonical long_form long_form-IsOver
