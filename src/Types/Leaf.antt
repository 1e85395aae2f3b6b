-- ===== src/Types/Leaf.antt =====
-- asn1_types.c: what a client writes by one call, parses and reads off the first node.
use asn.Base.{
  String, eq→==, ℕ, ◌≤◌, ◌<◌, ◌^◌, ◌≡◌, refl, ap, sym, ◌∙◌, false, some, List, [], ◌∷◌, append-nil,
  length, take, splice, get_elem?, done, arith,
}
use asn.Error.{Op}
use asn.Identifier.{Identifier, identifier_equal, class_number}
use asn.Types.Access.{Parsed, expect}
use asn.Serializer.{Serializer, serializer_init, serialize_primitive}
use asn.Serializer.TreeRun.{serialize_tree, peak, IsShort}
use asn.Parser.Header.{EncodingRules}
use asn.Parser.Node.{Node, ParseResult, asn1_parse, primitive}
use asn.Parser.RoundTrip.{CanHold}
use asn.Serializer.Writes.{appended, serialize_primitive-appended}
use asn.RoundTrip.{asn1_parse-serialize_tree, serializer_init-Holds}
use asn.Tree.{leaf, encode, size, nodes, height, HasTags}

-- A primitive node of the tag with the data `xs`.
pub record Carries (node : Node) (id : Identifier) (xs : List ℕ) : Type 0 where
  pub tagged : node.identifier ≡ id
  pub flat : node.content_type ≡ primitive
  pub bytes : node.data_bytes ≡ some xs
  pub count : node.data_length ≡ length xs

-- The call `m` fills the array, and its parse is one node of the tag `id` with the data `xs`.
abbrev pub Delivers :
    Op Serializer (Unit {0}) → List ℕ → ℕ → EncodingRules → ParseResult → (Node → Type 0) → Type 0
Delivers m buffer capacity rules r P =
    (u : Serializer) × (m (serializer_init buffer capacity) ≡ done tt u)
    × (t : ParseResult) × (asn1_parse (some (take u.length u.buffer)) u.length rules false r
        ≡ done tt t)
    × (t.count ≡ 1)
    × (node : Node) × (get_elem? t.nodes 0 ≡ some node)
    × P node

splice_first :
    (xs : List Node) (x : Node) → 0 < length xs → get_elem? (splice xs 0 (x ∷ [])) 0 ≡ some x
splice_first [] x h = absurd (omega arith)
splice_first (y ∷ ys) x h = refl

-- One node of the array is enough.
pub leaf-Delivers :
    (id : Identifier) (xs buffer : List ℕ) (capacity : ℕ) (rules : EncodingRules) (r : ParseResult)
    → id.tag_number < 2 ^ 32
    → capacity ≤ length buffer
    → capacity < 2 ^ 63
    → length (encode (leaf id xs)) ≤ capacity
    → CanHold r 1
    → Delivers
        (serialize_primitive id xs (length xs))
        buffer
        capacity
        rules
        r
        (λ node. Carries node id xs)
unfolding serialize_tree peak IsShort height HasTags size nodes
leaf-Delivers id xs buffer capacity rules r tag inside small room holds =
    let (u, ran, _, parsed) =
      asn1_parse-serialize_tree (leaf id xs) buffer capacity rules r inside small room tt
        (omega arith) tag holds in
    (
      u,
      ran,
      _,
      parsed,
      refl,
      _,
      splice_first r.nodes _ (omega arith),
      record { tagged = refl; flat = refl; bytes = ap some (append-nil xs); count = refl },
    )

pub Delivers-mono :
    (m : Op Serializer (Unit {0})) (buffer : List ℕ) (capacity : ℕ) (rules : EncodingRules)
    (r : ParseResult) {P Q : Node → Type 0}
    → ((node : Node) → P node → Q node)
    → Delivers m buffer capacity rules r P
    → Delivers m buffer capacity rules r Q
Delivers-mono m buffer capacity rules r k (u, ran, t, parsed, one, node, first, p) =
    (u, ran, t, parsed, one, node, first, k node p)

-- The same of any operation that writes the encoding to the fresh serializer.
pub written-Delivers :
    (m : Op Serializer (Unit {0})) (id : Identifier) (xs buffer : List ℕ) (capacity : ℕ)
    (rules : EncodingRules) (r : ParseResult)
    → id.tag_number < 2 ^ 32
    → capacity ≤ length buffer
    → capacity < 2 ^ 63
    → length (encode (leaf id xs)) ≤ capacity
    → CanHold r 1
    → m (serializer_init buffer capacity)
      ≡ done tt (appended (serializer_init buffer capacity) (encode (leaf id xs)))
    → Delivers m buffer capacity rules r (λ node. Carries node id xs)
unfolding encode
written-Delivers m id xs buffer capacity rules r tag inside small room holds ran =
    let s = serializer_init buffer capacity in
    let same = rw append-nil at (
      serialize_primitive-appended id xs [] s []
        (serializer_init-Holds buffer capacity inside small) (omega (arith, room))) in
    let (u, did, t, parsed, one, node, first, carries) =
      leaf-Delivers id xs buffer capacity rules r tag inside small room holds in
    (u, ran ∙ sym same ∙ did, t, parsed, one, node, first, carries)

-- The tests that open a parser pass.
pub expect-Carries :
    {A : Type 0} (node : Node) (id : Identifier) (xs : List ℕ) (a b : String) (rest : Parsed A)
    → Carries node id xs
    → expect node id a b rest ≡ rest
unfolding expect identifier_equal
expect-Carries node id xs a b rest h =
    rw (h.tagged, h.flat, eq→== id.tag_number _ refl, eq→== (class_number id.tag_class) _ refl)
