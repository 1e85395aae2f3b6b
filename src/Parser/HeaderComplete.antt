-- ===== src/Parser/HeaderComplete.antt =====
-- parse_identifier() and parse_length() read every header of the grammar.
use asn.Base.{
  All-split, ℕ, zero, suc, ◌+◌, ◌*◌, ◌/◌, ◌%◌, ◌^◌, ◌≤◌, ◌<◌, ◌≡◌, refl, ap, sym, ◌∙◌, Bool, List,
  [], ◌∷◌, ◌++◌, length, le→ltb, ne→==, arith, All, IsByte, bit_and, size_mod,
}
use asn.Base.Bits.{bit_and-mod, bit_and_top, bit_or_top}
use asn.Identifier.{Identifier, TagClass, class_of}
use asn.Buffer.Reads.{Reads, Reads-bind, Reads-last, Reads-return, need_byte-Reads}
use asn.Parser.Header.{
  EncodingRules, ber, der, Length, definite, indefinite, push_group, push_octet, base128_loop,
  long_tag, parse_base128_uint, parse_identifier, length_loop, check_minimal, long_length,
  length_of, parse_length,
}
use asn.Parser.Canonical.{push_octet-below}
use asn.Parser.HeaderSound.{push_group-eq, composite_bit}
use asn.Parser.LengthCodec.{length_of-short, length_of-long, parse_length-Reads}
use asn.Parser.Grammar.{
  number_from, groups_from, is_composite, IsTag, one_byte, grouped, IsLength, exact, short, long,
  open_end,
}
use native.Mathlib.Nat.{pow-suc}

base128_loop-Reads :
    (gs : List ℕ) (y left v w : ℕ)
    → All (λ g. 128 ≤ g) gs
    → All IsByte gs
    → y < 128
    → length gs < left
    → w ≡ v % 2 ^ 32
    → Reads (base128_loop left w) (gs ++ (y ∷ [])) (groups_from v (gs ++ (y ∷ [])) % 2 ^ 32)
unfolding base128_loop
base128_loop-Reads gs y zero v w tops bytes low few e = absurd (omega arith)
base128_loop-Reads [] y (suc left) v w tops bytes low few e =
    let last : bit_and y 0x80 ≡ 0 = bit_and_top y (omega arith) ∙ omega arith in
    Reads-bind (y ∷ []) y _ [] (need_byte-Reads _ _ y)
      (rw (last, push_group-eq v w y e) (Reads-return _))
base128_loop-Reads (g ∷ gs) y (suc left) v w (top, tops) (byte, bytes) low few e =
    let more : bit_and g 0x80 ≡ 128 = bit_and_top g byte ∙ omega arith in
    Reads-bind (g ∷ []) g _ (gs ++ (y ∷ [])) (need_byte-Reads _ _ g) (
      rw more (
        base128_loop-Reads gs y left (v * 128 + g % 128) (push_group w g) tops bytes low
          (omega arith) (push_group-eq v w g e)))

long_tag-Reads :
    (c : TagClass) (k : Bool) (gs : List ℕ) (y : ℕ)
    → All (λ g. 128 ≤ g) gs
    → All IsByte gs
    → y < 128
    → length gs ≤ 4
    → 31 ≤ groups_from 0 (gs ++ (y ∷ [])) % 2 ^ 32
    → Reads
        (long_tag c k)
        (gs ++ (y ∷ []))
        (record { tag_number = groups_from 0 (gs ++ (y ∷ [])) % 2 ^ 32; tag_class = c }, k)
unfolding long_tag parse_base128_uint
long_tag-Reads c k gs y tops bytes low few large =
    let t : ℕ = groups_from 0 (gs ++ (y ∷ [])) % 2 ^ 32 in
    Reads-last (gs ++ (y ∷ [])) t _
      (base128_loop-Reads gs y 5 0 0 tops bytes low (omega arith) refl)
      (rw (le→ltb t 0x1F large) (Reads-return (record { tag_number = t; tag_class = c }, k)))

pub parse_identifier-IsTag :
    (xs : List ℕ) (id : Identifier) (k : Bool)
    → IsTag xs id k
    → All IsByte xs
    → Reads parse_identifier xs (id, k)
unfolding parse_identifier
parse_identifier-IsTag xs id k (one_byte b low e f g) bytes = rw (e, f, g) (one (rw e at bytes))
  where
    one :
        All IsByte (b ∷ [])
        → Reads parse_identifier
            (b ∷ [])
            (record { tag_number = b % 32; tag_class = class_of (b / 64) }, is_composite b)
    one (byte, _) =
        let bits : bit_and b 0x1F ≡ b % 32 = bit_and-mod 5 b in
        Reads-bind (b ∷ []) b _ [] (need_byte-Reads _ _ b)
          (rw (bits, ne→== (b % 32) 31 (omega arith), composite_bit b byte) (Reads-return _))
parse_identifier-IsTag xs id k (grouped b gs y all tops last few e f large g) bytes =
    rw (e, f, g) (many (rw e at bytes))
  where
    many :
        All IsByte (b ∷ (gs ++ (y ∷ [])))
        → Reads parse_identifier (b ∷ (gs ++ (y ∷ []))) (
          record {
            tag_number = groups_from 0 (gs ++ (y ∷ [])) % 2 ^ 32;
            tag_class = class_of (b / 64);
          },
          is_composite b,
        )
    many (byte, octets) =
        let bits : bit_and b 0x1F ≡ 31 = bit_and-mod 5 b ∙ all in
        Reads-bind (b ∷ []) b _ (gs ++ (y ∷ [])) (need_byte-Reads _ _ b) (
          rw (bits, composite_bit b byte)
            (long_tag-Reads (class_of (b / 2 ^ 6)) (is_composite b) gs y tops
              (All-split IsByte gs (y ∷ []) octets).0 last few large))

length_loop-Reads :
    (ds : List ℕ) (j v : ℕ)
    → v < 256 ^ j
    → j + length ds ≤ 8
    → All IsByte ds
    → Reads (length_loop (length ds) v) ds (number_from v ds)
unfolding length_loop
length_loop-Reads [] j v few fits bytes = Reads-return v
length_loop-Reads (d ∷ ds) j v few fits (byte, bytes) =
    let pushed : push_octet v d ≡ v * 256 + d = push_octet-below j v d few (omega arith) byte in
    Reads-bind (d ∷ []) d _ ds (need_byte-Reads _ _ d) (
      rw pushed (
        length_loop-Reads ds (suc j) (v * 256 + d) (omega (arith, pow-suc 256 j, byte))
          (omega arith) bytes))

long_length-Reads :
    (ds : List ℕ)
    → 1 ≤ length ds
    → length ds ≤ 8
    → All IsByte ds
    → Reads (long_length ber (length ds)) ds (definite (number_from 0 ds))
unfolding long_length check_minimal
long_length-Reads ds some_octets few bytes =
    rw (ne→== (length ds) 0 (omega (arith, some_octets)), le→ltb 8 (length ds) few)
      (Reads-last ds (number_from 0 ds) _
        (length_loop-Reads ds 0 0 (omega arith) (omega (arith, few)) bytes) (Reads-return _))

-- The number of a definite length is a `size_t`.
abbrev pub IsSize : Length → Type 0
IsSize (definite n) = n < size_mod
IsSize indefinite = Unit

pub parse_length-IsLength :
    (rules : EncodingRules) (xs : List ℕ) (l : Length)
    → IsLength rules xs l
    → IsSize l
    → All IsByte xs
    → Reads (parse_length rules) xs l
unfolding parse_length length_of
parse_length-IsLength rules xs l (exact n r e f) small bytes =
    rw (r, e, f) (parse_length-Reads der n (rw f at small))
parse_length-IsLength rules xs l (short n r low e f) small bytes =
    rw (r, e, f)
      (Reads-bind (n ∷ []) n (length_of ber) [] (need_byte-Reads _ _ n)
        (length_of-short ber n (omega arith)))
parse_length-IsLength rules xs l (long ds r some_octets few octets e f) small bytes =
    let first : length_of ber (128 + length ds) ≡ long_length ber (length ds) =
      ap (length_of ber) (sym (bit_or_top (length ds) (omega (arith, few))))
      ∙ length_of-long ber (length ds) (omega (arith, some_octets)) few in
    rw (r, e, f)
      (Reads-bind ((128 + length ds) ∷ []) (128 + length ds) (length_of ber) ds
        (need_byte-Reads _ _ (128 + length ds))
        (rw first (long_length-Reads ds some_octets few octets)))
parse_length-IsLength rules xs l (open_end r e f) small bytes =
    rw (r, e, f)
      (Reads-bind (128 ∷ []) 128 (length_of ber) [] (need_byte-Reads _ _ 128)
        (Reads-return indefinite))
