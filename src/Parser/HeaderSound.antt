-- ===== src/Parser/HeaderSound.antt =====
-- parse_identifier() and parse_length(): the bytes of every header that they accept.
use asn.Base.{
  ℕ, zero, suc, ◌+◌, ◌*◌, ◌/◌, ◌%◌, ◌^◌, ◌≤◌, ◌<◌, ◌≡◌, refl, ap, ◌∙◌, Bool, not, List, [], ◌∷◌,
  ◌++◌, length, ltb, ◌==◌, arith, All, IsByte, Returns, Returns-bind, Returns-mono, Returns-if_op,
  returned, raised, bit_and,
}
use asn.Base.Bits.{bit_and-mod, bit_or-add, bit_and_top, bit_and_constructed}
use asn.Identifier.{Identifier, class_of}
use asn.Buffer.{Buffer}
use asn.Parser.Header.{
  Length, definite, ber, der, EncodingRules, push_group, push_octet, base128_loop, long_tag,
  parse_identifier, length_loop, check_minimal, long_length, length_of, parse_length,
}
use asn.Parser.Canonical.{
  IsOver, Takes, Takes-none, Takes-append, need_byte-Takes, push_octet-below,
  parse_length-IsCanonical,
}
use asn.Parser.Grammar.{
  number_from, groups_from, is_composite, IsTag, one_byte, grouped, IsLength, exact, short, long,
  open_end,
}
use native.Mathlib.Nat.{pow-suc}

-- A left shift by seven bits drops the top seven.
pub push_group-eq : (v w x : ℕ) → w ≡ v % 2 ^ 32 → push_group w x ≡ (v * 128 + x % 128) % 2 ^ 32
push_group-eq v w x h =
    let shifted : w * 2 ^ 7 % 2 ^ 32 ≡ w % 2 ^ 25 * 2 ^ 7 = omega arith in
    rw (shifted, bit_and-mod 7 x)
      (bit_or-add 7 (w % 2 ^ 25) (x % 128) (omega arith) ∙ omega (arith, h))

-- The groups that the loop reads: the last one has no top bit.
base128_loop-Takes :
    (left v w : ℕ) (b : Buffer)
    → IsOver b
    → w ≡ v % 2 ^ 32
    → Returns
        (λ r c.
          (gs : List ℕ) × (y : ℕ) × Takes b (gs ++ (y ∷ [])) c
          × All (λ g. 128 ≤ g) gs
          × (y < 128)
          × (length gs < left)
          × (r ≡ groups_from v (gs ++ (y ∷ [])) % 2 ^ 32))
        (λ _. Unit)
        (base128_loop left w b)
unfolding base128_loop
base128_loop-Takes zero v w b h e = Returns-bind (need_byte-Takes _ _ b h) (λ x c k. raised tt)
base128_loop-Takes (suc left) v w b h e = Returns-bind (need_byte-Takes _ _ b h) λ x c (took, byte).
    Returns-if_op (bit_and x 0x80 == 0) _ _ c
      (λ last.
        returned
          ([], x, took, tt, ground (arith, bit_and_top x byte), omega arith, push_group-eq v w x e))
      (λ not_last.
        Returns-mono
          (λ r d (gs, y, took', tops, low, few, same). (
            x ∷ gs,
            y,
            Takes-append (x ∷ []) (gs ++ (y ∷ [])) took took',
            (ground (arith, bit_and_top x byte), tops),
            low,
            omega (arith, few),
            same,
          ))
          (base128_loop-Takes left (v * 128 + x % 128) (push_group w x) c took.over
            (push_group-eq v w x e)))

twice_zero : (t : ℕ) → (t * 32 == 0) ≡ (t == 0)
twice_zero zero = refl
twice_zero (suc t) = ground arith

pub composite_bit : (x : ℕ) → IsByte x → not (bit_and x 0x20 == 0) ≡ is_composite x
composite_bit x byte =
    ap (λ t. not (t == 0)) (bit_and_constructed x byte) ∙ ap not (twice_zero (x / 32 % 2))

-- The bytes of the identifier.
abbrev pub TakesTag : List ℕ → Buffer → Identifier × Bool → Buffer → Type 0
TakesTag front b (id, composite) c = (xs : List ℕ) × Takes b xs c × IsTag (front ++ xs) id composite

long_tag-Takes :
    (x : ℕ) (composite : Bool) (b : Buffer)
    → IsOver b
    → x % 32 ≡ 31
    → composite ≡ is_composite x
    → Returns (TakesTag (x ∷ []) b) (λ _. Unit) (long_tag (class_of (x / 2 ^ 6)) composite b)
unfolding long_tag
long_tag-Takes x composite b h all e =
    Returns-bind (base128_loop-Takes 5 0 0 b h refl) λ r c (gs, y, took, tops, low, few, same).
      Returns-if_op (ltb r 0x1F) _ _ c (λ _. raised tt)
        (λ large. returned (
          gs ++ (y ∷ []),
          took,
          grouped x gs y all tops low (omega arith) refl
              (ap (λ n. record { tag_number = n; tag_class = class_of (x / 2 ^ 6) }) same)
              (ground (arith, same)) e,
        ))

pub parse_identifier-Takes :
    (b : Buffer) → IsOver b → Returns (TakesTag [] b) (λ _. Unit) (parse_identifier b)
unfolding parse_identifier
parse_identifier-Takes b h = Returns-bind (need_byte-Takes _ _ b h) λ x c (took, byte).
    let low : bit_and x 0x1F ≡ x % 32 = bit_and-mod 5 x in
    let bit = composite_bit x byte in
    Returns-if_op (bit_and x 0x1F == 0x1F) _ _ c
      (λ all.
        Returns-mono (λ r d (xs, took', tag). (x ∷ xs, Takes-append (x ∷ []) xs took took', tag))
          (long_tag-Takes x (not (bit_and x 0x20 == 0)) c took.over (ground (arith, low)) bit))
      (λ short_form. returned (
        x ∷ [],
        took,
        one_byte x (ground (arith, low)) refl
            (ap (λ n. record { tag_number = n; tag_class = class_of (x / 2 ^ 6) }) low) bit,
      ))

-- The digits that the loop reads behind the first `j`.
length_loop-number :
    (left j v : ℕ) (b : Buffer)
    → IsOver b
    → v < 256 ^ j
    → j + left ≤ 8
    → Returns
        (λ r c.
          (ds : List ℕ) × Takes b ds c
          × All IsByte ds
          × (length ds ≡ left)
          × (r ≡ number_from v ds))
        (λ _. Unit)
        (length_loop left v b)
unfolding length_loop
length_loop-number zero j v b h few fits = returned ([], Takes-none b h, tt, refl, refl)
length_loop-number (suc left) j v b h few fits =
    Returns-bind (need_byte-Takes _ _ b h) λ x c (took, byte).
      let pushed : push_octet v x ≡ v * 256 + x = push_octet-below j v x few (omega arith) byte in
      Returns-mono
        (λ r d (ds, took', bytes, size, same). (
          x ∷ ds,
          Takes-append (x ∷ []) ds took took',
          (byte, bytes),
          ap suc size,
          same ∙ ap (λ t. number_from t ds) pushed,
        ))
        (length_loop-number left (suc j) (push_octet v x) c took.over
          (omega (arith, pushed, pow-suc 256 j, byte)) (omega arith))

-- The bytes of the length behind `front`.
abbrev pub TakesLength : EncodingRules → List ℕ → Buffer → Length → Buffer → Type 0
TakesLength rules front b l c = (xs : List ℕ) × Takes b xs c × IsLength rules (front ++ xs) l

long_length-number :
    (x : ℕ) (b : Buffer)
    → IsOver b
    → 128 ≤ x
    → IsByte x
    → Returns (TakesLength ber (x ∷ []) b) (λ _. Unit) (long_length ber (bit_and x 0x7F) b)
unfolding long_length check_minimal
long_length-number x b h top byte =
    let k : ℕ = bit_and x 0x7F in
    let low : k ≡ x % 128 = bit_and-mod 7 x in
    Returns-if_op (k == 0) _ _ b (λ _. raised tt)
      λ some_octets.
        Returns-if_op (ltb 8 k) _ _ b (λ _. raised tt)
          λ few.
            Returns-bind (length_loop-number k 0 0 b h (omega arith) (ground arith))
              λ n c (ds, took, bytes, size, same). returned (
                ds,
                took,
                long ds refl (ground (arith, size)) (ground (arith, size)) bytes
                    (ap (λ z. z ∷ ds) {x = x} {y = 128 + length ds} (omega (arith, size, low)))
                    (ap definite same),
              )

length_of-ber :
    (x : ℕ) (b : Buffer)
    → IsOver b
    → IsByte x
    → Returns (TakesLength ber (x ∷ []) b) (λ _. Unit) (length_of ber x b)
unfolding length_of
length_of-ber x b h byte =
    Returns-if_op (x == 0x80) _ _ b
      (λ marker. returned (
        [],
        Takes-none b h,
        open_end refl (ap (λ z. z ∷ []) {x = x} {y = 128} (ground arith)) refl,
      ))
      (λ _.
        Returns-if_op (bit_and x 0x80 == 0) _ _ b
          (λ low.
            returned
              ([], Takes-none b h, short x refl (ground (arith, bit_and_top x byte)) refl refl))
          (λ high. long_length-number x b h (ground (arith, bit_and_top x byte)) byte))

pub parse_length-Takes :
    (rules : EncodingRules) (b : Buffer)
    → IsOver b
    → Returns (TakesLength rules [] b) (λ _. Unit) (parse_length rules b)
unfolding parse_length
parse_length-Takes ber b h = Returns-bind (need_byte-Takes _ _ b h) λ x c (took, byte).
    Returns-mono (λ l d (xs, took', size). (x ∷ xs, Takes-append (x ∷ []) xs took took', size))
      (length_of-ber x c took.over byte)
parse_length-Takes der b h =
    Returns-mono (λ l c (n, same, xs, took, written). (xs, took, exact n refl written same))
      (parse_length-IsCanonical b h)
