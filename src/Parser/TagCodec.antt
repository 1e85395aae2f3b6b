-- ===== src/Parser/TagCodec.antt =====
-- asn1_encode_identifier() and parse_identifier(): what is written reads back.
use asn.Base.{
  ℕ, suc, ◌+◌, ◌*◌, ◌/◌, ◌%◌, ◌^◌, ◌≤◌, ◌<◌, ◌≡◌, refl, ◌∙◌, List, [], ◌∷◌, ◌++◌, length, arith,
  Bool, true, false, ltb, Bool-cases, inl, inr, bit_and, bit_or, le→ltb, ne→==, ltb→lt,
  if◌then◌else◌, done, ◌==◌, append-nil, not,
}
use asn.Base.Bits.{bit_and-mod, bit_or-add, bit_and_top, bit_and_constructed}
use asn.Identifier.{
  Identifier, TagClass, universal, application, context_specific, private, class_number, class_of,
}
use asn.Encoding.Groups.{inner, inner_lem, push_group_lem, base128_octets-fold}
use asn.Encoding.{base128_octets, encode_identifier}
use asn.Buffer.{Buffer}
use asn.Buffer.Reads.{IsBefore, Reads, Reads-bind, Reads-return, need_byte-Reads, advance}
use asn.Parser.Header.{push_group, base128_loop, parse_base128_uint, long_tag, parse_identifier}

-- One round of the loop.
inner-Reads :
    (j t r : ℕ) (written : List ℕ)
    → t < 2 ^ 32
    → Reads (base128_loop j t) written r
    → Reads (base128_loop (suc j) (t / 2 ^ 7)) (inner t ∷ written) r
unfolding base128_loop
inner-Reads j t r written small rest =
    let value : push_group (t / 128) (128 + t % 128) ≡ t =
      push_group_lem (t / 128) (128 + t % 128) (omega arith) ∙ omega arith in
    let more : bit_and (128 + t % 128) 0x80 ≡ 128 =
      bit_and_top (128 + t % 128) (omega arith) ∙ omega arith in
    rw (inner_lem t) (
      Reads-bind ((128 + t % 128) ∷ []) (128 + t % 128) _ written
        (need_byte-Reads _ _ (128 + t % 128)) (rw (more, value) rest))

last-Reads :
    (j t : ℕ) → t < 2 ^ 32 → Reads (base128_loop (suc j) (t / 2 ^ 7)) (bit_and t 0x7F ∷ []) t
unfolding base128_loop
last-Reads j t small =
    let value : push_group (t / 128) (t % 128) ≡ t =
      push_group_lem (t / 128) (t % 128) (omega arith) ∙ omega arith in
    let last : bit_and (t % 128) 0x80 ≡ 0 = bit_and_top (t % 128) (omega arith) ∙ omega arith in
    rw (bit_and-mod 7 t) (
      Reads-bind ((t % 128) ∷ []) (t % 128) _ [] (need_byte-Reads _ _ (t % 128))
        (rw (last, value) (Reads-return t)))

pub parse_base128_uint-base128_octets :
    (t : ℕ) → t < 2 ^ 32 → Reads parse_base128_uint (base128_octets t) t
unfolding parse_base128_uint
parse_base128_uint-base128_octets t small =
    base128_octets-fold (λ j v xs. Reads (base128_loop j v) xs t)
      (λ j v written fits. inner-Reads j v t written fits) t small (λ j. last-Reads j t small)

-- The first byte in arithmetic, and its three fields.
abbrev flag : Bool → ℕ
flag true = 32
flag false = 0

abbrev first_byte : TagClass → Bool → ℕ → ℕ
first_byte c k t = class_number c * 64 + flag k + t

abbrev first_octet : TagClass → Bool → ℕ → ℕ
first_octet c k t = bit_or (bit_or (class_number c * 2 ^ 6 % 2 ^ 8) (if k then 0x20 else 0x00)) t

first_octet_lem : (c : TagClass) (k : Bool) (t : ℕ) → t < 32 → first_octet c k t ≡ first_byte c k t
first_octet_lem universal false t h = bit_or-add 5 0 t h
first_octet_lem universal true t h = bit_or-add 5 1 t h
first_octet_lem application false t h = bit_or-add 5 2 t h
first_octet_lem application true t h = bit_or-add 5 3 t h
first_octet_lem context_specific false t h = bit_or-add 5 4 t h
first_octet_lem context_specific true t h = bit_or-add 5 5 t h
first_octet_lem private false t h = bit_or-add 5 6 t h
first_octet_lem private true t h = bit_or-add 5 7 t h

class_field : (c : TagClass) (k : Bool) (t : ℕ) → t < 32 → first_byte c k t / 2 ^ 6 ≡ class_number c
class_field universal k t h = ground arith
class_field application k t h = ground arith
class_field context_specific k t h = ground arith
class_field private k t h = ground arith

class_of-class_number : (c : TagClass) → class_of (class_number c) ≡ c
class_of-class_number universal = refl
class_of-class_number application = refl
class_of-class_number context_specific = refl
class_of-class_number private = refl

class_number-lt : (c : TagClass) → class_number c < 4
class_number-lt universal = omega arith
class_number-lt application = omega arith
class_number-lt context_specific = omega arith
class_number-lt private = omega arith

first_byte-lt : (c : TagClass) (k : Bool) (t : ℕ) → t < 32 → first_byte c k t < 256
first_byte-lt c true t h = omega (arith, class_number-lt c)
first_byte-lt c false t h = omega (arith, class_number-lt c)

constructed_field :
    (c : TagClass) (k : Bool) (t : ℕ) → t < 32 → not (bit_and (first_byte c k t) 0x20 == 0) ≡ k
constructed_field c true t h =
    let bit : bit_and (first_byte c true t) 0x20 ≡ 32 =
      bit_and_constructed _ (first_byte-lt c true t h) ∙ omega arith in
    rw bit
constructed_field c false t h =
    let bit : bit_and (first_byte c false t) 0x20 ≡ 0 =
      bit_and_constructed _ (first_byte-lt c false t h) ∙ omega arith in
    rw bit

number_field : (c : TagClass) (k : Bool) (t : ℕ) → t < 32 → bit_and (first_byte c k t) 0x1F ≡ t
number_field c true t h = bit_and-mod 5 (first_byte c true t) ∙ omega arith
number_field c false t h = bit_and-mod 5 (first_byte c false t) ∙ omega arith

-- A tag number is a `uint32_t`.
abbrev pub IsTag : Identifier → Type 0
IsTag id = id.tag_number < 2 ^ 32

long_tag-Reads :
    (c : TagClass) (k : Bool) (t : ℕ)
    → 0x1F ≤ t
    → t < 2 ^ 32
    → Reads (long_tag c k) (base128_octets t) (record { tag_number = t; tag_class = c }, k)
unfolding long_tag
long_tag-Reads c k t long small = rw (← append-nil (base128_octets t)) (
    Reads-bind (base128_octets t) t _ [] (parse_base128_uint-base128_octets t small)
      (rw (le→ltb t 0x1F long) (Reads-return (record { tag_number = t; tag_class = c }, k))))

pub parse_identifier-Reads :
    (id : Identifier) (k : Bool)
    → IsTag id
    → Reads parse_identifier (encode_identifier id k) (id, k)
unfolding parse_identifier encode_identifier
parse_identifier-Reads id k small = elim (Bool-cases (ltb id.tag_number 0x1F)) [
  | inl short ↦
      let t : ℕ = id.tag_number in
      let below : t < 31 = ltb→lt t 31 short in
      rw (short, first_octet_lem id.tag_class k t (omega arith))
        (Reads-bind (first_byte id.tag_class k t ∷ []) (first_byte id.tag_class k t) _ []
          (need_byte-Reads _ _ _)
          (rw
            (
              class_field id.tag_class k t (omega arith),
              class_of-class_number id.tag_class,
              constructed_field id.tag_class k t (omega arith),
              number_field id.tag_class k t (omega arith),
              ne→== t 31 (omega arith),
            )
            (Reads-return (id, k))))
  | inr long ↦
      let c : TagClass = id.tag_class in
      let large : 31 ≤ id.tag_number = ground arith in
      rw (long, first_octet_lem c k 31 (omega arith))
        (Reads-bind (first_byte c k 31 ∷ []) (first_byte c k 31) _ (base128_octets id.tag_number)
          (need_byte-Reads _ _ _)
          (rw
            (
              class_field c k 31 (omega arith),
              class_of-class_number c,
              constructed_field c k 31 (omega arith),
              number_field c k 31 (omega arith),
            )
            (long_tag-Reads c k id.tag_number large small)))
]

-- Where the reader stands before the encoding of a tag of 32 bits, parse_identifier() returns the tag
-- and its constructed bit and leaves the reader right behind the encoding.
pub parse_identifier-encode_identifier :
    (id : Identifier) (k : Bool) (b : Buffer) (rest : List ℕ)
    → IsTag id
    → IsBefore b (encode_identifier id k ++ rest)
    → parse_identifier b ≡ done (id, k) (advance b (length (encode_identifier id k)))
parse_identifier-encode_identifier id k b rest small h = parse_identifier-Reads id k small b rest h
