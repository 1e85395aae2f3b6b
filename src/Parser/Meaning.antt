-- ===== src/Parser/Meaning.antt =====
-- asn1_parser.c: steps of parse_node() that read values of the grammar, and how these are put together.
use asn.Base.{
  ℕ, ◌≤◌, ◌≡◌, refl, ap, sym, ◌∙◌, Bool, true, false, List, [], ◌∷◌, ◌++◌, append_assoc, length,
  drop, arith, add_size, Returns,
}
use asn.Error.{Op}
use asn.Buffer.{Buffer, buffer_remaining}
use asn.Parser.Header.{EncodingRules, Length, definite, indefinite}
use asn.Parser.Node.{Node, ParseState}
use asn.Parser.Canonical.{Takes, Takes-none, Takes-append}
use asn.Parser.Grammar.{IsValue, IsValues, ended, more, is_end_marker}
use asn.Parser.Storing.{IsSound, Stores}
use asn.Parser.Yields.{IsArray, Takes-IsArray, Takes-offset, Fits-split, Means}

-- A value takes a cell.
abbrev pub MeansOne : (List ℕ → List ℕ → List Node → Type 0) → Buffer → Buffer → List Node → Type 0
MeansOne V b c ns = (1 ≤ length ns) × Means V b c ns

abbrev pub Yields : (List ℕ → List ℕ → List Node → Type 0) → ParseState → ParseState → Type 0
Yields V s t = Stores (Means V s.buf t.buf) s t

abbrev pub YieldsOne : (List ℕ → List ℕ → List Node → Type 0) → ParseState → ParseState → Type 0
YieldsOne V s t = Stores (MeansOne V s.buf t.buf) s t

abbrev pub YieldingOne : (List ℕ → List ℕ → List Node → Type 0) → Op ParseState (Unit {0}) → Type 0
YieldingOne V m = (s : ParseState) → IsSound s → Returns (λ _ t. YieldsOne V s t) IsSound (m s)

-- A row before the marker, with the marker.
abbrev pub IsMarked : EncodingRules → ℕ → List ℕ → List ℕ → List Node → Type 0
IsMarked rules depth xs rest ns =
    (ys : List ℕ) × (xs ≡ ys ++ (0 ∷ 0 ∷ [])) × IsValues rules true depth ys (0 ∷ 0 ∷ rest) ns

-- The content behind a length.
abbrev pub IsContent : EncodingRules → ℕ → Length → List ℕ → List ℕ → List Node → Type 0
IsContent rules depth (definite n) xs rest ns =
    (length xs ≡ n) × IsValues rules false depth xs rest ns
IsContent rules depth indefinite xs rest ns = IsMarked rules depth xs rest ns

module _ (rules : EncodingRules) (depth : ℕ) where
  -- A value before a row.
  IsValues-front :
      {marked : Bool} {before behind rest : List ℕ} (xs ys : List ℕ) (ns ms : List Node)
      → before ≡ xs ++ behind
      → behind ≡ ys ++ rest
      → (marked ≡ true → is_end_marker before ≡ false)
      → IsValue rules depth xs behind ns
      → IsValues rules marked depth ys rest ms
      → IsValues rules marked depth (xs ++ ys) rest (ns ++ ms)
  IsValues-front {rest = rest} xs ys ns ms e f unmarked value row =
      more xs ys ns ms
        (λ m.
          ap is_end_marker (append_assoc xs ys rest ∙ ap (λ l. xs ++ l) (sym f) ∙ sym e)
          ∙ unmarked m)
        (rw f at value) row refl refl

  pub Means-front :
      {b c d : Buffer} (ns ms : List Node)
      → MeansOne (IsValue rules depth) b c ns
      → Means (IsValues rules false depth) c d ms
      → Means (IsValues rules false depth) b d (ns ++ ms)
  Means-front ns ms (_, f) g a fits =
      let (front, back) = Fits-split ns ms fits in
      let (xs, took, value) = f a front in
      let (ys, took', row) = g (Takes-IsArray a took) back in
      (
        xs ++ ys,
        Takes-append xs ys took took',
        IsValues-front xs ys ns ms took.bytes took'.bytes (λ e. cc) value row,
      )

  pub Means-front-IsMarked :
      {b c d : Buffer} (ns ms : List Node)
      → (IsArray b → is_end_marker (drop b.offset b.input) ≡ false)
      → MeansOne (IsValue rules depth) b c ns
      → Means (IsMarked rules depth) c d ms
      → Means (IsMarked rules depth) b d (ns ++ ms)
  Means-front-IsMarked {d = d} ns ms unmarked (_, f) g a fits =
      let (front, back) = Fits-split ns ms fits in
      let (xs, took, value) = f a front in
      let (zs, took', (ys, e, row)) = g (Takes-IsArray a took) back in
      let ahead : zs ++ drop d.offset d.input ≡ ys ++ (0 ∷ 0 ∷ drop d.offset d.input) =
        ap (λ l. l ++ drop d.offset d.input) e ∙ append_assoc ys (0 ∷ 0 ∷ []) _ in
      (
        xs ++ zs,
        Takes-append xs zs took took',
        (
          xs ++ ys,
          ap (λ l. xs ++ l) e ∙ sym (append_assoc xs ys _),
          IsValues-front xs ys ns ms took.bytes (took'.bytes ∙ ahead) (λ _. unmarked a) value row,
        ),
      )

  pub Means-none : (b : Buffer) → Means (IsValues rules false depth) b b []
  Means-none b a fits = ([], Takes-none b a.over, ended)

  pub Means-marker :
      {b c : Buffer} → (IsArray b → Takes b (0 ∷ 0 ∷ []) c) → Means (IsMarked rules depth) b c []
  Means-marker took a fits = (0 ∷ 0 ∷ [], took a, ([], refl, ended))

  -- A row of the length that the header says.
  pub Means-exact :
      {b c d : Buffer} (n : ℕ) (ns : List Node)
      → n ≤ buffer_remaining b
      → c.offset ≡ add_size b.offset n
      → d ≡ c
      → Means (IsValues rules false depth) b c ns
      → Means (IsContent rules depth (definite n)) b d ns
  Means-exact {b} {c} n ns left ended_at same f a fits =
      let (xs, took, row) = f a fits in
      let size : length xs ≡ n =
        omega (arith, Takes-offset took, a.inside, a.short, left, ended_at) in
      rw same (xs, took, (size, row))
