-- ===== src/Parser/Moves.antt =====
-- asn1_parser.c: the reader stays within its array, also where a sum of asn1_buffer_read_bytes() wraps,
-- and the nodes that a step of parse_node() stores point into this array.
use asn.Base.{
  ℕ, ◌^◌, ◌≤◌, ◌<◌, ◌≡◌, ◌⊎◌, refl, ap, ◌∙◌, some, List, [], ◌++◌, length, length-drop, drop, ltb,
  arith, All, All-append, add_size, Returns, Returns-mono, Returns-with, Returns-if, returned,
}
use asn.Error.{Op}
use asn.Buffer.{Buffer, Pointer, skip, read_bytes}
use asn.Parser.Header.{EncodingRules, parse_identifier, parse_length}
use asn.Parser.HeaderSound.{parse_identifier-Takes, parse_length-Takes}
use asn.Parser.Node.{Node, ParseState, constructed, on_buf}
use asn.Parser.Safety.{IsReadable, parse_identifier-Reading, parse_length-Reading}
use asn.Parser.Canonical.{Takes}
use asn.Parser.Storing.{IsSound, Stores, Stores-mono, Stores-on_buf}
use asn.Parser.Yields.{IsArray, Takes-IsArray}

-- The data of the node begins in the array, and lies there where it is less than half of the
-- address space.
pub record Points (d : Pointer) (node : Node) : Type 0 where
  pub front : List ℕ
  pub content : Pointer
  pub found : node.data_bytes ≡ some content
  pub part : d ≡ front ++ content
  pub enough : node.data_length < 2 ^ 63 → node.data_length ≤ length content

abbrev pub Held : Pointer → Node → Type 0
Held d node = (node.content_type ≡ constructed) ⊎ Points d node

-- From `b` to `c` the reader stays within the array.
abbrev pub Moves : Buffer → Buffer → Type 0
Moves b c = IsArray b → IsArray c × (c.input ≡ b.input)

-- And the nodes `ns` are held by the array.
abbrev pub Safe : Buffer → Buffer → List Node → Type 0
Safe b c ns = IsArray b → IsArray c × (c.input ≡ b.input) × All (Held b.input) ns

pub Safe-none : (b : Buffer) → Safe b b []
Safe-none b a = (a, refl, tt)

pub Safe-append :
    {b c d : Buffer} (ns ms : List Node) → Safe b c ns → Safe c d ms → Safe b d (ns ++ ms)
Safe-append {b} ns ms f g a =
    let (a', same, front) = f a in
    let (a'', same', back) = g a' in
    (a'', same' ∙ same, All-append (Held b.input) ns ms front (rw same at back))

abbrev pub Moving : {A : Type 0} → Op Buffer A → Type 0
Moving m = (b : Buffer) → IsReadable b → Returns (λ _ c. IsReadable c × Moves b c) IsReadable (m b)

pub Moves-Safe : {b c : Buffer} → Moves b c → Safe b c []
Moves-Safe f a = let (a', same) = f a in (a', same, tt)

-- An operation on the reader stores nothing.
pub Moving-Safe :
    {A : Type 0} (m : Op Buffer A)
    → Moving m
    → (s : ParseState) → IsSound s
    → Returns (λ _ t. Stores (Safe s.buf t.buf) s t) IsSound (on_buf m s)
Moving-Safe m moving s h =
    Returns-mono (λ _ t (g, moves). Stores-mono (λ ns e. rw e (Moves-Safe moves)) g)
      (Stores-on_buf {P = λ _ c. Moves s.buf c} m s h (moving s.buf h.readable))

Takes-Moves :
    {b c : Buffer} (xs : List ℕ) → IsArray b → Takes b xs c → IsArray c × (c.input ≡ b.input)
Takes-Moves xs a took = (Takes-IsArray a took, ap (λ c. c.input) took.end_at)

pub parse_identifier-Moving : Moving parse_identifier
parse_identifier-Moving b h =
    Returns-mono
      (λ _ c (readable, f). (readable, λ a. let (xs, took, _) = f a in Takes-Moves xs a took))
      (Returns-with (parse_identifier-Reading b h)
        (λ (a : IsArray b). parse_identifier-Takes b a.over))

pub parse_length-Moving : (rules : EncodingRules) → Moving (parse_length rules)
parse_length-Moving rules b h =
    Returns-mono
      (λ _ c (readable, f). (readable, λ a. let (xs, took, _) = f a in Takes-Moves xs a took))
      (Returns-with (parse_length-Reading rules b h)
        (λ (a : IsArray b). parse_length-Takes rules b a.over))

-- A step that the test of the reader lets through.
moved : (b : Buffer) (o : ℕ) → o ≤ b.length → Moves b (record b { offset = o })
moved b o within a = (
  record {
    over = record { readable = a.over.readable; small = a.over.small; octets = a.over.octets };
    short = a.short;
    inside = within;
  },
  refl,
)

pub skip-Moving : (n : ℕ) → Moving (skip n)
unfolding skip
skip-Moving n b h =
    Returns-if (ltb b.length (add_size b.offset n)) (λ _. returned (h, λ a. (a, refl)))
      (λ within. returned (h, moved b (add_size b.offset n) (ground arith)))

-- What asn1_buffer_read_bytes() hands on, whether the sum wraps or not.
pub read_bytes-Points :
    (b : Buffer) (n : ℕ)
    → IsReadable b
    → Returns
        (λ p c.
          IsReadable c
          × (Moves b c
              × ((ptr : Pointer)
                  → p ≡ some ptr
                  → (ptr ≡ drop b.offset b.input) × (IsArray b → n < 2 ^ 63 → n ≤ length ptr))))
        IsReadable
        (read_bytes n b)
unfolding read_bytes
read_bytes-Points b n h =
    Returns-if (ltb b.length (add_size b.offset n))
      (λ _. returned (h, ((λ a. (a, refl)), λ ptr e. cc)))
      (λ within. returned (
        h,
        (
          moved b (add_size b.offset n) (ground arith),
          λ ptr e.
              let same : ptr ≡ drop b.offset b.input = cc in
              (same, λ a few. rw same (enough a few (ground arith))),
        ),
      ))
  where
    enough :
        IsArray b → n < 2 ^ 63 → add_size b.offset n ≤ b.length → n ≤ length (drop b.offset b.input)
    enough a few within =
        let size = length-drop b.offset b.input in
        omega (arith, size, a.inside, a.short, a.over.readable)
