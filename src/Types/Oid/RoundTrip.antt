-- ===== src/Types/Oid/RoundTrip.antt =====
-- asn1_types.c, OBJECT IDENTIFIER: what is written is read back.
use asn.Base.{
  ℕ, ◌+◌, ◌*◌, ◌/◌, ◌%◌, ◌^◌, ◌≤◌, ◌<◌, ◌≡◌, refl, ◌∙◌, false, List, [], ◌∷◌, length, ltb, ◌&&◌,
  ◌||◌, arith, ne→==, le→ltb,
}
use asn.Identifier.{id_object_identifier}
use asn.Parser.Header.{EncodingRules}
use asn.Parser.Node.{Node, ParseResult}
use asn.Serializer.{Serializer, serialize_primitive}
use asn.Tree.{leaf, encode}
use asn.Types.Access.{ok}
use asn.Types.Octets.{byte_at-drop}
use asn.Types.Oid.{max_components, add_component, parse_oid, serialize_oid}
use asn.Types.Oid.Components.{
  octets, AreWords, oid_loop-octets, length-octets, write_components-octets,
}
use asn.Types.Leaf.{Carries, Delivers, Delivers-mono, leaf-Delivers, expect-Carries}
use asn.Types.RoundTrip.{HasSpace}

-- An identifier that fits: the first component is a root arc, the second is below 40 (as it must be
-- under the arcs 0 and 1), the others are 32 bits wide, and there is room for the components and for
-- their bytes.
pub record IsOid (c0 c1 : ℕ) (cs : List ℕ) : Type 0 where
  pub root : c0 ≤ 2
  pub second : c1 < 40
  pub words : AreWords cs
  pub count : 2 + length cs ≤ max_components
  pub size : 1 + length (octets cs) ≤ 128

module _ (c0 c1 : ℕ) (cs : List ℕ) (h : IsOid c0 c1 cs) where
  abbrev pub content : List ℕ
  content = (c0 * 40 + c1) ∷ octets cs

  serialize_oid-content :
      (s : Serializer)
      → serialize_oid (c0 ∷ c1 ∷ cs) s
        ≡ serialize_primitive id_object_identifier content (length content) s
  unfolding serialize_oid
  serialize_oid-content s =
      let valid : (ltb 2 c0 || ltb c0 2 && ltb 39 c1) ≡ false =
        rw (le→ltb 2 c0 h.root, le→ltb 39 c1 (omega (arith, h.second))) (ground arith) in
      let first : (c0 * 40 + c1) % 2 ^ 32 % 2 ^ 8 ≡ c0 * 40 + c1 =
        omega (arith, h.root, h.second) in
      rw (valid, first, write_components-octets cs ((c0 * 40 + c1) ∷ []) (omega (arith, h.size)))

  parse_oid-Carries :
      (node : Node) → Carries node id_object_identifier content → parse_oid node ≡ ok (c0 ∷ c1 ∷ cs)
  unfolding parse_oid add_component
  parse_oid-Carries node c =
      let root : (c0 * 40 + c1) / 40 ≡ c0 = omega (arith, h.second) in
      let second : (c0 * 40 + c1) % 40 ≡ c1 = omega (arith, h.second) in
      expect-Carries node id_object_identifier content _ _ _ c
      ∙ rw
          (
            ne→== node.data_length 0 (omega (arith, c.count)),
            byte_at-drop node content 0 c.bytes refl,
            root,
            second,
          )
          (oid_loop-octets node content c.bytes c.count cs node.data_length 1 (c0 ∷ c1 ∷ []) h.words
            h.count (omega (arith, c.count, length-octets cs)) (omega arith) refl)

-- An object identifier that asn1_serialize_oid() writes to a fresh serializer is parsed as one node, and
-- asn1_parse_oid() reads the same components off that node. The first component is 0, 1 or 2, the second
-- is below 40, the others are 32 bits wide, there are at most 32 components, and their bytes fit the 128
-- of the writer; the array can hold the encoding and has a capacity below 2 ^ 63, and the result can hold
-- a node.
pub parse_oid-serialize_oid :
    (c0 c1 : ℕ) (cs buffer : List ℕ) (capacity : ℕ) (rules : EncodingRules) (r : ParseResult)
    → IsOid c0 c1 cs
    → HasSpace
        (length (encode (leaf id_object_identifier ((c0 * 40 + c1) ∷ octets cs))))
        buffer
        capacity
        r
    → Delivers
        (serialize_oid (c0 ∷ c1 ∷ cs))
        buffer
        capacity
        rules
        r
        (λ node. parse_oid node ≡ ok (c0 ∷ c1 ∷ cs))
parse_oid-serialize_oid c0 c1 cs buffer capacity rules r valid h =
    let id = id_object_identifier in
    let xs = content c0 c1 cs valid in
    let same : serialize_oid (c0 ∷ c1 ∷ cs) ≡ serialize_primitive id xs (length xs) =
      λ i s. serialize_oid-content c0 c1 cs valid s i in
    rw same (
      Delivers-mono (serialize_primitive id xs (length xs)) buffer capacity rules r
        (λ node c. parse_oid-Carries c0 c1 cs valid node c)
        (leaf-Delivers id xs buffer capacity rules r (omega arith) h.inside h.small h.room h.holds))
