-- ===== src/Identifier.antt =====
-- Parser/include/asn1/asn1_identifier.h: tags.
use asn.Base.{ℕ, ◌*◌, ◌%◌, ◌^◌, Bool, ◌&&◌, ltb, leb, ◌==◌, if◌then◌else◌, bit_or}

pub data TagClass : Type 0 where
  universal : TagClass
  application : TagClass
  context_specific : TagClass
  private : TagClass

-- The value of the enumerator.
abbrev pub class_number : TagClass → ℕ
class_number universal = 0
class_number application = 1
class_number context_specific = 2
class_number private = 3

-- The enumerator of a two-bit number, as in the cast `(asn1_tag_class_t)(first_byte >> 6)`.
abbrev pub class_of : ℕ → TagClass
class_of n =
    if n == 0
    then universal
    else (if n == 1 then application else (if n == 2 then context_specific else private))

-- `tag_number` is a `uint32_t`.
pub record Identifier : Type 0 where
  pub tag_number : ℕ
  pub tag_class : TagClass

abbrev pub universal_tag : ℕ → Identifier
universal_tag n = record { tag_number = n; tag_class = universal }

-- ASN1_ID_BOOLEAN and the others.
abbrev pub id_boolean : Identifier
id_boolean = universal_tag 1

abbrev pub id_integer : Identifier
id_integer = universal_tag 2

abbrev pub id_bit_string : Identifier
id_bit_string = universal_tag 3

abbrev pub id_octet_string : Identifier
id_octet_string = universal_tag 4

abbrev pub id_null : Identifier
id_null = universal_tag 5

abbrev pub id_object_identifier : Identifier
id_object_identifier = universal_tag 6

abbrev pub id_sequence : Identifier
id_sequence = universal_tag 16

abbrev pub id_set : Identifier
id_set = universal_tag 17

abbrev pub id_utf8_string : Identifier
id_utf8_string = universal_tag 12

abbrev pub id_printable_string : Identifier
id_printable_string = universal_tag 19

abbrev pub id_ia5_string : Identifier
id_ia5_string = universal_tag 22

abbrev pub id_utc_time : Identifier
id_utc_time = universal_tag 23

abbrev pub id_generalized_time : Identifier
id_generalized_time = universal_tag 24

abbrev pub id_numeric_string : Identifier
id_numeric_string = universal_tag 18

abbrev pub id_teletex_string : Identifier
id_teletex_string = universal_tag 20

abbrev pub id_visible_string : Identifier
id_visible_string = universal_tag 26

abbrev pub id_universal_string : Identifier
id_universal_string = universal_tag 28

abbrev pub id_bmp_string : Identifier
id_bmp_string = universal_tag 30

-- asn1_identifier()
abbrev pub asn1_identifier : ℕ → TagClass → Identifier
asn1_identifier n c = record { tag_number = n; tag_class = c }

-- asn1_context_tag()
abbrev pub asn1_context_tag : ℕ → Identifier
asn1_context_tag n = record { tag_number = n; tag_class = context_specific }

-- asn1_identifier_equal()
unfoldable pub identifier_equal : Identifier → Identifier → Bool
identifier_equal a b =
    a.tag_number == b.tag_number && class_number a.tag_class == class_number b.tag_class

-- asn1_identifier_is_short_form()
unfoldable pub is_short_form : Identifier → Bool
is_short_form id = ltb id.tag_number 0x1f

-- asn1_identifier_short_form(): 0 where the long form is needed.
unfoldable pub short_form : Identifier → Bool → ℕ
short_form id constructed =
    if leb 0x1f id.tag_number
    then 0
    else (let byte = bit_or (id.tag_number % 2 ^ 8) (class_number id.tag_class * 2 ^ 6 % 2 ^ 8) in
        if constructed then bit_or byte 0x20 else byte)
