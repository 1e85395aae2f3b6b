-- ===== src/Parser/Yields.antt =====
-- asn1_parser.c: steps of parse_node() with the bytes that they read and the nodes that they store for
-- these, and the reads that such a step consists of.
use asn.Base.{
  All-split, ℕ, zero, suc, ◌+◌, ◌-◌, ◌^◌, ◌≤◌, ◌<◌, ◌≡◌, refl, ap, sym, ◌∙◌, Bool, true, some, List,
  [], ◌∷◌, ◌++◌, length, length-drop, take, drop, take-drop, drop-add, length-take, ltb, ◌==◌,
  arith, All, add_size, size_mod, Returns, returned, Returns-if, lt→leb, le→ltb, ne→==, done,
  get_elem?-drop,
}
use asn.Buffer.{Buffer, Pointer, buffer_remaining, peek_byte, skip, read_bytes}
use asn.Buffer.Reads.{advance}
use asn.Parser.Node.{Node, at_end_marker, second_is_zero}
use asn.Parser.Canonical.{IsOver, Takes}
use asn.Parser.Grammar.{is_end_marker}

-- A reader within an array of bytes, which is at most half of the address space.
pub record IsArray (b : Buffer) : Type 0 where
  pub over : IsOver b
  pub short : b.length < 2 ^ 63
  pub inside : b.offset ≤ b.length

pub Takes-IsArray : {b c : Buffer} {xs : List ℕ} → IsArray b → Takes b xs c → IsArray c
Takes-IsArray a took = record {
  over = took.over;
  short = omega (arith, a.short, ap (λ c. c.length) took.end_at);
  inside = took.inside a.inside;
}

pub Takes-offset : {b c : Buffer} {xs : List ℕ} → Takes b xs c → c.offset ≡ b.offset + length xs
Takes-offset took = ap (λ c. c.offset) took.end_at

-- The data of the nodes are no longer than that.
abbrev pub Fits : List Node → Type 0
Fits ns = All (λ n. n.data_length < 2 ^ 63) ns

pub Fits-split : (ns ms : List Node) → Fits (ns ++ ms) → Fits ns × Fits ms
Fits-split ns ms h = All-split (λ n. n.data_length < 2 ^ 63) ns ms h

-- From `b` to `c` bytes are read for which, with what is behind them, the nodes stand as `V` says.
abbrev pub Means : (List ℕ → List ℕ → List Node → Type 0) → Buffer → Buffer → List Node → Type 0
Means V b c ns =
    IsArray b → Fits ns → (xs : List ℕ) × Takes b xs c × V xs (drop c.offset c.input) ns

-- The next `n` bytes.
pub advance-Takes :
    (b : Buffer) (n : ℕ)
    → IsArray b
    → b.offset + n ≤ b.length
    → (xs : List ℕ) × Takes b xs (advance b n) × (length xs ≡ n)
advance-Takes b n a fits =
    let left : length (drop b.offset b.input) ≡ length b.input - b.offset =
      length-drop b.offset b.input in
    let size : length (take n (drop b.offset b.input)) ≡ n =
      length-take n (drop b.offset b.input) (omega (arith, left, a.over.readable)) in
    (
      take n (drop b.offset b.input),
      record {
        over = record { readable = a.over.readable; small = a.over.small; octets = a.over.octets };
        end_at = ap (advance b) (sym size);
        bytes =
            sym (take-drop n (drop b.offset b.input))
            ∙ ap (λ l. take n (drop b.offset b.input) ++ l)
                (drop-add b.offset n (b.offset + n) b.input refl);
        inside = λ _. fits;
      },
      size,
    )

pub read_bytes-Takes :
    (b : Buffer) (n : ℕ)
    → IsArray b
    → n < 2 ^ 63
    → Returns
        (λ p c.
          (ptr : Pointer)
          → p ≡ some ptr
          → (xs : List ℕ) × Takes b xs c × (length xs ≡ n) × (ptr ≡ drop b.offset b.input))
        (λ _. Unit)
        (read_bytes n b)
unfolding read_bytes
read_bytes-Takes b n a few =
    let step : add_size b.offset n ≡ b.offset + n = omega (arith, a.short, a.inside) in
    rw step (
      Returns-if (ltb b.length (b.offset + n)) (λ _. returned (λ ptr e. cc))
        (λ fits. returned (λ ptr e.
          let (xs, took, size) = advance-Takes b n a (ground arith) in (xs, took, size, cc))))

peek_byte-eq :
    (b : Buffer) (x : ℕ) (xs : List ℕ)
    → b.offset < b.length
    → drop b.offset b.input ≡ x ∷ xs
    → peek_byte b ≡ done (some x) b
unfolding peek_byte
peek_byte-eq b x xs inside bytes =
    rw (lt→leb b.length b.offset inside, get_elem?-drop b.input b.offset bytes)

second_is_zero-eq :
    (b : Buffer) (x y : ℕ) (xs : List ℕ)
    → b.length < size_mod
    → b.offset + 2 ≤ b.length
    → drop b.offset b.input ≡ x ∷ y ∷ xs
    → second_is_zero b ≡ done (y == 0) b
unfolding second_is_zero skip
second_is_zero-eq b x y xs small inside bytes =
    let step : add_size b.offset 1 ≡ b.offset + 1 = omega (arith, small) in
    let behind : drop (b.offset + 1) b.input ≡ y ∷ xs =
      sym (drop-add b.offset 1 (b.offset + 1) b.input refl) ∙ ap (drop 1) bytes in
    rw (
      step,
      le→ltb b.length (b.offset + 1) (omega arith),
      peek_byte-eq (advance b 1) y xs (omega arith) behind,
    )

-- Where two bytes are left, at_end_marker() says whether they are the marker.
pub at_end_marker-eq :
    (b : Buffer) (x y : ℕ) (xs : List ℕ)
    → b.length < size_mod
    → b.offset + 2 ≤ b.length
    → drop b.offset b.input ≡ x ∷ y ∷ xs
    → at_end_marker b ≡ done (is_end_marker (x ∷ y ∷ xs)) b
unfolding at_end_marker
at_end_marker-eq b zero zero xs small inside bytes =
    rw
      (peek_byte-eq b 0 (0 ∷ xs) (omega arith) bytes, second_is_zero-eq b 0 0 xs small inside bytes)
at_end_marker-eq b zero (suc y) xs small inside bytes = rw (
  peek_byte-eq b 0 (suc y ∷ xs) (omega arith) bytes,
  second_is_zero-eq b 0 (suc y) xs small inside bytes,
  ne→== (suc y) 0 cc,
)
at_end_marker-eq b (suc x) y xs small inside bytes =
    rw (peek_byte-eq b (suc x) (y ∷ xs) (omega arith) bytes, ne→== (suc x) 0 cc)

-- The same of the bytes that are left, whichever they are.
two_left : (xs : List ℕ) → 2 ≤ length xs → (x : ℕ) × (y : ℕ) × (ys : List ℕ) × (xs ≡ x ∷ y ∷ ys)
two_left [] h = absurd (omega arith)
two_left (x ∷ []) h = absurd (omega arith)
two_left (x ∷ (y ∷ ys)) h = (x, y, ys, refl)

abbrev Marks : Buffer → Bool → Buffer → Type 0
Marks b marker c = (c ≡ b) × (marker ≡ is_end_marker (drop b.offset b.input))

at_end_marker-bytes :
    (b : Buffer) (x y : ℕ) (xs : List ℕ)
    → IsArray b
    → b.offset + 2 ≤ b.length
    → drop b.offset b.input ≡ x ∷ y ∷ xs
    → Returns (Marks b) (λ _. Unit) (at_end_marker b)
at_end_marker-bytes b x y xs a inside bytes =
    rw (at_end_marker-eq b x y xs a.over.small inside bytes)
      (returned (refl, ap is_end_marker (sym bytes)))

pub at_end_marker-Marks :
    (b : Buffer)
    → IsArray b
    → 2 ≤ buffer_remaining b
    → Returns (Marks b) (λ _. Unit) (at_end_marker b)
at_end_marker-Marks b a left =
    let inside : b.offset + 2 ≤ b.length = omega (arith, left, a.inside, a.short) in
    let (x, y, ys, bytes) =
      two_left (drop b.offset b.input)
        (omega (arith, length-drop b.offset b.input, a.over.readable)) in
    at_end_marker-bytes b x y ys a inside bytes

-- skip() of the marker.
two_marked : (xs : List ℕ) → is_end_marker xs ≡ true → (ys : List ℕ) × (xs ≡ 0 ∷ 0 ∷ ys)
two_marked [] h = cc
two_marked (zero ∷ []) h = cc
two_marked (suc x ∷ xs) h = cc
two_marked (zero ∷ (zero ∷ xs)) h = (xs, refl)
two_marked (zero ∷ (suc y ∷ xs)) h = cc

pub skip-Takes :
    (b : Buffer)
    → IsArray b
    → 2 ≤ buffer_remaining b
    → is_end_marker (drop b.offset b.input) ≡ true
    → Returns (λ _ c. Takes b (0 ∷ 0 ∷ []) c) (λ _. Unit) (skip 2 b)
unfolding skip
skip-Takes b a left marked =
    let step : add_size b.offset 2 ≡ b.offset + 2 = omega (arith, a.short, a.inside) in
    let fits : b.offset + 2 ≤ b.length = omega (arith, left, a.inside, a.short) in
    let (ys, found) = two_marked (drop b.offset b.input) marked in
    rw (step, le→ltb b.length (b.offset + 2) fits)
      (returned (record {
        over = record { readable = a.over.readable; small = a.over.small; octets = a.over.octets };
        end_at = refl;
        bytes =
            found
            ∙ ap (λ l. 0 ∷ 0 ∷ l)
                (sym (ap (drop 2) found) ∙ drop-add b.offset 2 (b.offset + 2) b.input refl);
        inside = λ _. fits;
      }))
