-- ===== src/Parser/LengthCodec.antt =====
-- asn1_encode_length() and parse_length(): what is written reads back.
use asn.Base.{
  ℕ, zero, suc, ◌+◌, ◌*◌, ◌/◌, ◌%◌, ◌^◌, ◌≤◌, ◌<◌, ◌≡◌, ◌≢◌, ◌∙◌, List, [], ◌∷◌, ◌++◌, length,
  arith, leb, Bool-cases, inl, inr, bit_and, bit_or, lt→leb, le→ltb, ne→==, size_mod, done,
  append-nil,
}
use asn.Base.Bits.{bit_and-mod, bit_or_top, bit_or-add, bit_and_top}
use asn.Parser.Required.{required_loop-octets_needed}
use asn.Encoding.{octets_needed, fill_octets, encode_length}
use asn.Encoding.Octets.{count_octets-le, count_octets-pos, lt-count_octets}
use asn.Buffer.{Buffer}
use asn.Buffer.Reads.{IsBefore, Reads, Reads-bind, Reads-return, need_byte-Reads, advance}
use asn.Parser.Header.{
  EncodingRules, ber, der, definite, push_octet, length_loop, check_minimal, long_length, length_of,
  parse_length,
}
use native.Mathlib.Nat.{pow-suc}

-- Pushing a digit that `&` cut off.
push_octet_lem : (v x : ℕ) → v * 256 + x < size_mod → x < 256 → push_octet v x ≡ v * 256 + x
push_octet_lem v x fits small =
    let whole : v * 2 ^ 8 % 2 ^ 64 ≡ v * 2 ^ 8 = omega arith in rw whole (bit_or-add 8 v x small)

push_octet-digit : (n : ℕ) → n < size_mod → push_octet (n / 256) (bit_and n 0xFF) ≡ n
push_octet-digit n fits =
    rw (bit_and-mod 8 n)
      (push_octet_lem (n / 256) (n % 256) (omega arith) (omega arith) ∙ omega arith)

-- The loop reads the digits of `n` that fill_octets() writes, and goes on with what is behind them.
length_loop-fill_octets :
    (i j k n : ℕ) (written : List ℕ) (r : ℕ)
    → k ≡ i + j
    → n < 256 ^ i
    → n < size_mod
    → Reads (length_loop j n) written r
    → Reads (length_loop k 0) (fill_octets i n written) r
unfolding fill_octets
length_loop-fill_octets zero j k n written r e h small rest =
    let same : n ≡ 0 = omega arith in let rounds : k ≡ j = omega arith in rw (rounds, ← same) rest
length_loop-fill_octets (suc i) j k n written r e h small rest =
    length_loop-fill_octets i (suc j) k (n / 2 ^ 8) (bit_and n 0xFF ∷ written) r (omega arith)
      (omega (arith, pow-suc 256 i)) (omega arith) step
  where
    step : Reads (length_loop (suc j) (n / 2 ^ 8)) (bit_and n 0xFF ∷ written) r
    step =
        unfold length_loop in
        Reads-bind (bit_and n 0xFF ∷ []) (bit_and n 0xFF)
          (λ x. length_loop j (push_octet (n / 2 ^ 8) x)) written
          (need_byte-Reads _ _ (bit_and n 0xFF)) (rw (push_octet-digit n small) rest)

check_minimal-Reads :
    (rules : EncodingRules) (n : ℕ)
    → 0x7F < n
    → Reads (check_minimal rules (octets_needed n) n) [] (definite n)
unfolding check_minimal
check_minimal-Reads ber n long = Reads-return (definite n)
check_minimal-Reads der n long =
    rw
      (
        lt→leb n 0x7F long,
        required_loop-octets_needed n,
        le→ltb (octets_needed n) (octets_needed n) (omega arith),
      )
      (Reads-return (definite n))

long_length-Reads :
    (rules : EncodingRules) (n : ℕ)
    → 0x7F < n
    → n < size_mod
    → Reads (long_length rules (octets_needed n)) (fill_octets (octets_needed n) n []) (definite n)
unfolding long_length
long_length-Reads rules n long small =
    let k : ℕ = octets_needed n in
    let pos : k ≢ 0 = omega (arith, count_octets-pos 8 n (omega arith) small) in
    rw (ne→== k 0 pos, le→ltb 8 k (count_octets-le 8 n), ← append-nil (fill_octets k n []))
      (Reads-bind (fill_octets k n []) n (check_minimal rules k) [] loop
        (check_minimal-Reads rules n long))
  where
    loop : Reads (length_loop (octets_needed n) 0) (fill_octets (octets_needed n) n []) n
    loop =
        length_loop-fill_octets (octets_needed n) 0 (octets_needed n) n [] n (omega arith)
          (lt-count_octets 8 n small) small (unfold length_loop in Reads-return n)

-- The first byte of the long form.
pub length_of-long :
    (rules : EncodingRules) (k : ℕ)
    → 0 < k
    → k ≤ 8
    → length_of rules (bit_or 0x80 k) ≡ long_length rules k
unfolding length_of
length_of-long rules k pos few =
    let low : bit_and (128 + k) 0x7F ≡ k = bit_and-mod 7 (128 + k) ∙ omega arith in
    let top : bit_and (128 + k) 0x80 ≡ 128 = bit_and_top (128 + k) (omega arith) ∙ omega arith in
    rw (bit_or_top k (omega arith), ne→== (128 + k) 0x80 (omega arith), top, low)

pub length_of-short :
    (rules : EncodingRules) (n : ℕ) → n ≤ 0x7F → Reads (length_of rules n) [] (definite n)
unfolding length_of
length_of-short rules n short =
    let top : bit_and n 0x80 ≡ 0 = bit_and_top n (omega arith) ∙ omega arith in
    rw (ne→== n 0x80 (omega arith), top) (Reads-return (definite n))

pub parse_length-Reads :
    (rules : EncodingRules) (n : ℕ)
    → n < size_mod
    → Reads (parse_length rules) (encode_length n) (definite n)
unfolding parse_length encode_length
parse_length-Reads rules n small = elim (Bool-cases (leb n 0x7F)) [
  | inl short ↦ rw short (
      Reads-bind (n ∷ []) n (length_of rules) [] (need_byte-Reads _ _ n)
        (length_of-short rules n (ground arith)))
  | inr long ↦
      let big : 0x7F < n = ground arith in
      let pos = count_octets-pos 8 n (omega arith) small in
      rw long (
        Reads-bind (bit_or 0x80 (octets_needed n) ∷ []) (bit_or 0x80 (octets_needed n))
          (length_of rules) (fill_octets (octets_needed n) n []) (need_byte-Reads _ _ _)
          (rw (length_of-long rules (octets_needed n) pos (count_octets-le 8 n))
            (long_length-Reads rules n big small)))
]

-- Under both rules, where the reader stands before the encoding of a `size_t`, parse_length() returns
-- that number as a definite length and leaves the reader right behind the encoding.
pub parse_length-encode_length :
    (rules : EncodingRules) (n : ℕ) (b : Buffer) (rest : List ℕ)
    → n < size_mod
    → IsBefore b (encode_length n ++ rest)
    → parse_length rules b ≡ done (definite n) (advance b (length (encode_length n)))
parse_length-encode_length rules n b rest small h = parse_length-Reads rules n small b rest h
