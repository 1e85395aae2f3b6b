-- ===== src/Types/Oid/Safety.antt =====
-- asn1_types.c, OBJECT IDENTIFIER: the parser on any node.
use asn.Base.{
  ℕ, zero, suc, ◌+◌, ◌*◌, ◌/◌, ◌%◌, ◌^◌, ◌≤◌, ◌<◌, ◌≡◌, refl, ap, List, [], ◌∷◌, ◌++◌, length,
  length-append, ltb, leb, ◌==◌, arith, All, All-append, bit_and, Returns-bind, Returns-mono,
  Returns-if, returned, raised,
}
use asn.Base.Bits.{bit_and-mod, bit_or-add}
use asn.Identifier.{id_object_identifier}
use asn.Parser.Header.{push_group}
use asn.Parser.Node.{Node}
use asn.Types.Safety.{IsInside, Reads, expect-Reads, byte_at-Reads}
use asn.Types.Oid.{max_components, add_component, component_loop, oid_loop, parse_oid}

abbrev pub IsComponent : ℕ → Type 0
IsComponent c = c < 2 ^ 32

-- What asn1_parse_oid() promises of the components: there are two at least and 32 at most, each fits
-- in 32 bits, the first is at most 6 and the second below 40.
pub record IsParsed (oid : List ℕ) : Type 0 where
  pub first : ℕ
  pub second : ℕ
  pub others : List ℕ
  pub parts : oid ≡ first ∷ second ∷ others
  pub first_low : first ≤ 6
  pub second_low : second < 40
  pub few : length oid ≤ max_components
  pub small : All IsComponent oid

push_group-lt : (value byte : ℕ) → push_group value byte < 2 ^ 32
push_group-lt value byte =
    let shifted : value * 2 ^ 7 % 2 ^ 32 ≡ value % 2 ^ 25 * 2 ^ 7 = omega arith in
    let joined = bit_or-add 7 (value % 2 ^ 25) (byte % 128) (omega arith) in
    rw (shifted, bit_and-mod 7 byte) (omega (arith, joined))

-- A component is within 32 bits, and ends behind its start and within the data.
component_loop-Reads :
    (node : Node) (left i value : ℕ)
    → IsInside node
    → Reads
        (λ (c, j). IsComponent c × (i < j) × (j ≤ node.data_length))
        (component_loop node left i value)
unfolding component_loop
component_loop-Reads node zero i value h =
    Returns-if (leb node.data_length i) (λ _. raised tt) (λ _. raised tt)
component_loop-Reads node (suc left) i value h =
    Returns-if (leb node.data_length i) (λ _. raised tt)
      λ more.
        let inside : i < node.data_length = ground arith in
        Returns-bind (byte_at-Reads node i h inside) λ byte _ _.
          Returns-if (bit_and byte 0x80 == 0)
            (λ _. returned (push_group-lt value byte, omega arith, omega arith))
            (λ _.
              Returns-mono (λ (c, j) _ (small, after, within). (small, omega arith, within))
                (component_loop-Reads node left (i + 1) (push_group value byte) h))

add_component-Reads :
    (oid : List ℕ) (c : ℕ) → IsParsed oid → IsComponent c → Reads IsParsed (add_component oid c)
unfolding add_component
add_component-Reads oid c h small =
    Returns-if (leb max_components (length oid)) (λ _. raised tt)
      λ free. returned (record {
        first = h.first;
        second = h.second;
        others = h.others ++ (c ∷ []);
        parts = ap (λ l. l ++ (c ∷ [])) h.parts;
        first_low = h.first_low;
        second_low = h.second_low;
        few = ground (arith, length-append oid (c ∷ []));
        small = All-append IsComponent oid (c ∷ []) h.small (small, tt);
      })

-- A round takes a byte at least, so as many rounds as there are bytes are enough.
oid_loop-Reads :
    (node : Node) (fuel i : ℕ) (oid : List ℕ)
    → IsInside node
    → node.data_length ≤ i + fuel
    → IsParsed oid
    → Reads IsParsed (oid_loop node fuel i oid)
unfolding oid_loop
oid_loop-Reads node zero i oid h enough p =
    Returns-if (ltb i node.data_length) (λ more. absurd (ground arith)) (λ _. returned p)
oid_loop-Reads node (suc fuel) i oid h enough p =
    Returns-if (ltb i node.data_length)
      (λ more. Returns-bind (component_loop-Reads node 5 i 0 h) λ (c, j) _ (small, after, within).
        Returns-bind (add_component-Reads oid c p small)
          λ oid' _ p'. oid_loop-Reads node fuel j oid' h (omega arith) p')
      (λ _. returned p)

-- asn1_parse_oid() returns on every node whose data lies within an array of bytes, with no read outside
-- the data. What it gives has 2 to 32 components, each within 32 bits, of which the first is at most 6
-- and the second below 40.
pub parse_oid-Reads : (node : Node) → IsInside node → Reads IsParsed (parse_oid node)
unfolding parse_oid add_component
parse_oid-Reads node h =
    expect-Reads node id_object_identifier "Expected OBJECT IDENTIFIER" "OID must be primitive" _ (
      Returns-if (node.data_length == 0) (λ _. raised tt)
        λ some_bytes. Returns-bind (byte_at-Reads node 0 h (ground arith)) λ byte _ b.
          oid_loop-Reads node node.data_length 1 (byte / 40 ∷ byte % 40 ∷ []) h (omega arith)
            (record {
              first = byte / 40;
              second = byte % 40;
              others = [];
              parts = refl;
              first_low = omega arith;
              second_low = omega arith;
              few = omega arith;
              small = (omega arith, (omega arith, tt));
            }))
