-- ===== src/Types/BitString/Safety.antt =====
-- asn1_types.c, BIT STRING: the parser and the reads of single bits on any node.
use asn.Base.{
  ℕ, ◌+◌, ◌-◌, ◌*◌, ◌/◌, ◌^◌, ◌≤◌, ◌<◌, ◌≡◌, not, ◌&&◌, length, length-drop, get_elem?-lt, ltb, leb,
  ◌==◌, ==→eq, arith, Bool-cases, inl, inr, Returns-bind, Returns-if, returned, raised, bit_and,
}
use asn.Identifier.{id_bit_string}
use asn.Parser.Node.{Node}
use asn.Types.Safety.{IsInside, Reads, expect-Reads, byte_at-Reads}
use asn.Types.BitString.{
  BitString, parse_bit_string, check_unused, take_bits, behind_first, bit_get, bit_count,
}

-- asn1_bit_string_get() returns at every index.
pub bit_get-Reads :
    (bs : BitString) (i : ℕ) → bs.byte_count ≤ length bs.bytes → Reads (λ _. Unit) (bit_get bs i)
unfolding bit_get
bit_get-Reads bs i h =
    Returns-if (leb bs.byte_count (i / 8)) (λ _. returned tt)
      (λ below. let (x, e) = get_elem?-lt bs.bytes (i / 8) (ground arith) in rw e (returned tt))

-- What a parsed bit string promises: its bytes are those behind the first of the node, fewer than
-- eight bits are unused, none where there is no byte, and every bit can be read.
pub record IsReadable (node : Node) (bs : BitString) : Type 0 where
  pub rest : bs.byte_count + 1 ≡ node.data_length
  pub unused : bs.unused_bits ≤ 7
  pub counted : bit_count bs + bs.unused_bits ≡ 8 * bs.byte_count
  pub bits : (i : ℕ) → Reads (λ _. Unit) (bit_get bs i)

take_bits-Reads :
    (node : Node) (unused : ℕ)
    → IsInside node
    → 0 < node.data_length
    → node.data_length < 2 ^ 61
    → unused ≤ 7
    → (node.data_length ≡ 1 → unused ≡ 0)
    → Reads (IsReadable node) (take_bits node unused)
unfolding take_bits bit_count
take_bits-Reads node unused h more small low alone =
    let behind : length (behind_first node.data_bytes) ≡ length h.array - 1 =
      rw h.found (length-drop 1 h.array) in
    returned (record {
      rest = omega arith;
      unused = low;
      counted = elim (Bool-cases (node.data_length - 1 == 0)) [
        | inl empty ↦
            rw empty (omega (arith, alone (ground arith), ==→eq (node.data_length - 1) 0 empty))
        | inr full ↦
            let some_bytes : 1 ≤ node.data_length - 1 = ground arith in rw full (omega arith)
      ];
      bits = λ i. bit_get-Reads _ i (omega (arith, behind, h.enough));
    })

-- asn1_parse_bit_string() returns on every node whose data lies within an array and is shorter than
-- 2 ^ 61 bytes, with no read outside the data. In what it gives fewer than eight bits are unused,
-- asn1_bit_string_bit_count() is the number of the others, and asn1_bit_string_get() returns at every
-- index with no read outside the bytes.
pub parse_bit_string-Reads :
    (node : Node)
    → IsInside node
    → node.data_length < 2 ^ 61
    → Reads (IsReadable node) (parse_bit_string node)
unfolding parse_bit_string check_unused
parse_bit_string-Reads node h small =
    expect-Reads node id_bit_string "Expected BIT STRING" "Constructed BIT STRING not supported" _ (
      Returns-if (node.data_length == 0) (λ _. raised tt)
        λ some_bytes. Returns-bind (byte_at-Reads node 0 h (ground arith)) λ unused _ _.
          Returns-if (ltb 7 unused) (λ _. raised tt)
            λ low.
              Returns-if (node.data_length == 1 && not (unused == 0)) (λ _. raised tt)
                λ alone.
                  let taken =
                    take_bits-Reads node unused h (ground arith) small (ground arith)
                      (λ one. ground arith) in
                  Returns-if (ltb 0 unused && ltb 1 node.data_length)
                    (λ two.
                      Returns-bind (byte_at-Reads node (node.data_length - 1) h (ground arith))
                        λ last _ _.
                          Returns-if (not (bit_and last (2 ^ unused - 1) == 0)) (λ _. raised tt)
                            (λ _. taken))
                    (λ _. taken))
