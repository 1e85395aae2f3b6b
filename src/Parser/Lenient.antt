-- ===== src/Parser/Lenient.antt =====
-- asn1_parser.c: what the distinguished rules accept, the basic rules accept as well.
use asn.Base.{
  All-split, ℕ, ◌^◌, ◌<◌, ◌≡◌, refl, ap, sym, ◌∙◌, Bool, false, some, List, [], ◌∷◌, ◌++◌,
  append-nil, length, length-append, take, drop, drop-append, take-all, length-take-le, arith,
  size_mod, done, All, IsByte, of_returned,
}
use asn.Identifier.{Identifier}
use asn.Buffer.{Buffer, Pointer, buffer_init}
use asn.Buffer.Reads.{IsBefore, IsBefore-init, advance}
use asn.Encoding.{encode_length}
use asn.Parser.Header.{ber, der, Length, definite, parse_length}
use asn.Parser.HeaderSound.{TakesLength, parse_length-Takes}
use asn.Parser.LengthCodec.{parse_length-Reads}
use asn.Parser.HeaderComplete.{IsSize}
use asn.Parser.Canonical.{IsOver}
use asn.Parser.Grammar.{
  IsLength, exact, short, long, open_end, IsHeader, IsValue, IsValues, flat_value, nested_value,
  open_value, ended, more,
}
use asn.Parser.Node.{Node, ParseResult, asn1_parse}
use asn.Parser.Storing.{stored}
use asn.Parser.Totality.{IsFitting}
use asn.Parser.Yields.{Fits}
use asn.Parser.Sound.{asn1_parse-Means}
use asn.Parser.RoundTrip.{CanHold}
use asn.Parser.Complete.{asn1_parse-value}

drop-all : (xs : List ℕ) → drop (length xs) xs ≡ []
drop-all xs = ap (drop (length xs)) (sym (append-nil xs)) ∙ drop-append xs []

-- A length that takes the whole input.
whole_length :
    (ws : List ℕ) (l : Length) (c : Buffer)
    → TakesLength ber [] (buffer_init ws (length ws)) l c
    → c ≡ advance (buffer_init ws (length ws)) (length ws)
    → IsLength ber ws l
whole_length ws l c (xs, took, size) e =
    let input : c.input ≡ ws = ap (λ b. b.input) e in
    let offset : c.offset ≡ length ws = ap (λ b. b.offset) e ∙ omega arith in
    let bytes : ws ≡ xs ++ drop c.offset c.input = took.bytes in
    let nothing : drop c.offset c.input ≡ [] =
      ap (λ i. drop c.offset i) input ∙ ap (λ o. drop o ws) offset ∙ drop-all ws in
    let same : ws ≡ xs = bytes ∙ ap (λ l. xs ++ l) nothing ∙ append-nil xs in rw same size

read_length :
    (ws : List ℕ) (l : Length)
    → IsOver (buffer_init ws (length ws))
    → parse_length ber (buffer_init ws (length ws))
      ≡ done l (advance (buffer_init ws (length ws)) (length ws))
    → IsLength ber ws l
read_length ws l over ran =
    whole_length ws l (advance (buffer_init ws (length ws)) (length ws))
      (of_returned (rw ran at (parse_length-Takes ber (buffer_init ws (length ws)) over))) refl

-- What the writer writes is a length under BER.
exact-IsLength :
    (n : ℕ)
    → n < size_mod
    → All IsByte (encode_length n)
    → length (encode_length n) < size_mod
    → IsLength ber (encode_length n) (definite n)
exact-IsLength n small bytes few =
    read_length (encode_length n) (definite n)
      (record { readable = omega arith; small = few; octets = bytes })
      (parse_length-Reads ber n small _ [] (before (encode_length n) few))
  where
    before : (ws : List ℕ) → length ws < size_mod → IsBefore (buffer_init ws (length ws)) (ws ++ [])
    before ws few = rw (append-nil ws) (IsBefore-init ws few)

IsLength-ber :
    (xs : List ℕ) (l : Length)
    → IsSize l
    → All IsByte xs
    → length xs < size_mod
    → IsLength der xs l
    → IsLength ber xs l
IsLength-ber xs l small bytes few (exact n r e f) =
    rw (e, f) (exact-IsLength n (rw f at small) (rw e at bytes) (rw e at few))
IsLength-ber xs l small bytes few (short n r low e f) = cc
IsLength-ber xs l small bytes few (long ds r some_octets many octets e f) = cc
IsLength-ber xs l small bytes few (open_end r e f) = cc

-- Bytes within the address space.
abbrev IsData : List ℕ → Type 0
IsData xs = All IsByte xs × (length xs < size_mod)

IsData-split : (xs ys : List ℕ) → IsData (xs ++ ys) → IsData xs × IsData ys
IsData-split xs ys (bytes, few) =
    let (front, back) = All-split IsByte xs ys bytes in
    let size = length-append xs ys in
    ((front, omega (arith, few, size)), (back, omega (arith, few, size)))

IsHeader-ber :
    {xs : List ℕ} {id : Identifier} {k : Bool} {l : Length}
    → IsSize l
    → IsData xs
    → IsHeader der xs id k l
    → IsHeader ber xs id k l
IsHeader-ber small given h =
    let (_, (bytes, few)) = IsData-split h.tag_bytes h.length_bytes (rw h.parts at given) in
    record {
      tag_bytes = h.tag_bytes;
      length_bytes = h.length_bytes;
      parts = h.parts;
      tag = h.tag;
      size = IsLength-ber h.length_bytes _ small bytes few h.size;
    }

mutual
  IsValue-ber :
      {depth : ℕ} {xs rest : List ℕ} {ns : List Node}
      → IsData xs
      → IsValue der depth xs rest ns
      → IsValue ber depth xs rest ns
  IsValue-ber given (flat_value head content id low header e f) =
      let (front, (_, few)) = IsData-split head content (rw e at given) in
      flat_value head content id low (IsHeader-ber few front header) e f
  IsValue-ber given (nested_value head content id below low header row e f) =
      let (front, back) = IsData-split head content (rw e at given) in
      let (_, few) = back in
      nested_value head content id below low (IsHeader-ber few front header) (IsValues-ber back row)
        e f
  IsValue-ber given (open_value head content id below low header row e f) =
      let (front, back) = IsData-split head (content ++ (0 ∷ 0 ∷ [])) (rw e at given) in
      let (inner, _) = IsData-split content (0 ∷ 0 ∷ []) back in
      open_value head content id below low (IsHeader-ber tt front header) (IsValues-ber inner row) e
        f

  IsValues-ber :
      {marked : Bool} {depth : ℕ} {xs rest : List ℕ} {ns : List Node}
      → IsData xs
      → IsValues der marked depth xs rest ns
      → IsValues ber marked depth xs rest ns
  IsValues-ber given ended = ended
  IsValues-ber given (more xs ys ns ms unmarked value row e f) =
      let (front, back) = IsData-split xs ys (rw e at given) in
      more xs ys ns ms unmarked (IsValue-ber front value) (IsValues-ber back row) e f

-- Where asn1_parse() succeeds under DER on an input, it succeeds under BER on the same input and leaves
-- the same result. The input is an array of bytes, less than half of the address space, the array of
-- nodes is as long as the caller says and within the address space, and no stored node has data of
-- half of the address space.
pub asn1_parse-der_ber :
    (d : Pointer) (r t : ParseResult)
    → length d < 2 ^ 63
    → All IsByte d
    → IsFitting r
    → r.capacity < size_mod
    → asn1_parse (some d) (length d) der false r ≡ done tt t
    → Fits (stored t)
    → asn1_parse (some d) (length d) ber false r ≡ done tt t
asn1_parse-der_ber d r t half bytes h small ran fits =
    let (fitting, same, f) =
      of_returned
        (rw ran at (asn1_parse-Means d (length d) der false r (omega arith) half bytes h)) in
    strict_run (f fits) fitting same
  where
    strict_run :
        IsValue der 1 (take (length d) d) (drop (length d) d) (stored t)
        → IsFitting t
        → t.capacity ≡ r.capacity
        → asn1_parse (some d) (length d) ber false r ≡ done tt t
    strict_run value fitting same =
        let strict : IsValue der 1 d [] (stored t) =
          rw (take-all (length d) d (omega arith), drop-all d) at value in
        let few : length d < size_mod = omega (arith, half) in
        let holds : CanHold r (length (stored t)) =
          omega (arith, same, fitting.filled, h.writable, small, length-take-le t.count t.nodes) in
        asn1_parse-value d ber r (stored t) (IsValue-ber (bytes, few) strict) few bytes holds
        ∙ sym (asn1_parse-value d der r (stored t) strict few bytes holds)
        ∙ ran
