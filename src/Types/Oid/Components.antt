-- ===== src/Types/Oid/Components.antt =====
-- asn1_types.c, OBJECT IDENTIFIER: the components behind the first two.
use asn.Base.{
  ℕ, zero, suc, ◌+◌, ◌-◌, ◌/◌, ◌%◌, ◌^◌, ◌≤◌, ◌<◌, ◌≡◌, refl, ap, sym, ◌∙◌, false, some, List, [],
  ◌∷◌, ◌++◌, append_assoc, append-nil, length, length-append, length-drop, drop, drop-add,
  drop-append, drop-suc, All, arith, leb, lt→leb, lt→ltb, le→ltb, bit_and,
}
use asn.Base.Bits.{bit_and-mod, bit_and_top}
use asn.Encoding.{base128_octets}
use asn.Encoding.Octets.{length-base128_octets}
use asn.Encoding.Groups.{inner, inner_lem, push_group_lem, base128_octets-fold}
use asn.Parser.Header.{push_group}
use asn.Parser.Node.{Node}
use asn.Types.Access.{ok}
use asn.Types.Octets.{byte_at-drop}
use asn.Types.Oid.{max_components, add_component, component_loop, oid_loop, write_components}

-- The bytes of components in a row.
abbrev pub octets : List ℕ → List ℕ
octets [] = []
octets (c ∷ cs) = base128_octets c ++ octets cs

-- Every component is a `uint32_t`.
abbrev pub AreWords : List ℕ → Type 0
AreWords cs = All (λ c. c < 2 ^ 32) cs

module _ (node : Node) (p : List ℕ) (bytes : node.data_bytes ≡ some p)
    (count : node.data_length ≡ length p) where
  -- With `left` rounds left and the value `v` the inner loop reads `xs`, and gives `r`.
  Scans : ℕ → ℕ → ℕ → List ℕ → Type 0
  Scans r left v xs =
      (i : ℕ) (rest : List ℕ)
      → drop i p ≡ xs ++ rest
      → component_loop node left i v ≡ ok (r, i + length xs)

  not_behind : (i x : ℕ) (xs : List ℕ) → drop i p ≡ x ∷ xs → leb node.data_length i ≡ false
  not_behind i x xs h =
      lt→leb node.data_length i (omega (arith, count, ap length h, length-drop i p))

  inner-Scans :
      (r j t : ℕ) (written : List ℕ)
      → t < 2 ^ 32
      → Scans r j t written
      → Scans r (suc j) (t / 2 ^ 7) (inner t ∷ written)
  unfolding component_loop Scans
  inner-Scans r j t written small next i rest h =
      let value : push_group (t / 128) (128 + t % 128) ≡ t =
        push_group_lem (t / 128) (128 + t % 128) (omega arith) ∙ omega arith in
      let more : bit_and (128 + t % 128) 0x80 ≡ 128 =
        bit_and_top (128 + t % 128) (omega arith) ∙ omega arith in
      let behind : drop (i + 1) p ≡ written ++ rest =
        ap (λ k. drop k p) {y = suc i} (omega arith) ∙ drop-suc p i h in
      let end : i + 1 + length written ≡ i + suc (length written) = omega arith in
      rw
        (
          not_behind i (inner t) (written ++ rest) h,
          byte_at-drop node p i bytes h,
          inner_lem t,
          value,
          more,
        )
        (rw end at (next (i + 1) rest behind))

  last-Scans : (t j : ℕ) → t < 2 ^ 32 → Scans t (suc j) (t / 2 ^ 7) (bit_and t 0x7F ∷ [])
  unfolding component_loop Scans
  last-Scans t j small i rest h =
      let value : push_group (t / 128) (t % 128) ≡ t =
        push_group_lem (t / 128) (t % 128) (omega arith) ∙ omega arith in
      let last : bit_and (t % 128) 0x80 ≡ 0 = bit_and_top (t % 128) (omega arith) ∙ omega arith in
      rw (
        not_behind i (bit_and t 0x7F) rest h,
        byte_at-drop node p i bytes h,
        bit_and-mod 7 t,
        value,
        last,
      )

  component_loop-base128_octets :
      (t i : ℕ) (rest : List ℕ)
      → t < 2 ^ 32
      → drop i p ≡ base128_octets t ++ rest
      → component_loop node 5 i 0 ≡ ok (t, i + length (base128_octets t))
  unfolding Scans
  component_loop-base128_octets t i rest small h =
      base128_octets-fold (Scans t) (inner-Scans t) t small (λ j. last-Scans t j small) i rest h

  ended : (i : ℕ) → drop i p ≡ [] → node.data_length ≤ i
  ended i h = omega (arith, count, length-drop i p, ap length h)

  -- The outer loop from the index `i` on reads the components.
  pub oid_loop-octets :
      (cs : List ℕ) (fuel i : ℕ) (oid : List ℕ)
      → AreWords cs
      → length oid + length cs ≤ max_components
      → length cs ≤ fuel
      → i ≤ length p
      → drop i p ≡ octets cs
      → oid_loop node fuel i oid ≡ ok (oid ++ cs)
  unfolding oid_loop add_component
  oid_loop-octets [] zero i oid words room enough inside h =
      rw (le→ltb i node.data_length (ended i h), append-nil)
  oid_loop-octets [] (suc fuel) i oid words room enough inside h =
      rw (le→ltb i node.data_length (ended i h), append-nil)
  oid_loop-octets (c ∷ cs) zero i oid words room enough inside h = absurd (omega arith)
  oid_loop-octets (c ∷ cs) (suc fuel) i oid words room enough inside h =
      let size = length-base128_octets c in
      let left : length p - i ≡ length (base128_octets c) + length (octets cs) =
        sym (length-drop i p) ∙ ap length h ∙ length-append (base128_octets c) (octets cs) in
      let behind : drop (i + length (base128_octets c)) p ≡ octets cs =
        sym (drop-add i (length (base128_octets c)) (i + length (base128_octets c)) p refl)
        ∙ ap (drop (length (base128_octets c))) h
        ∙ drop-append (base128_octets c) (octets cs) in
      rw
        (
          lt→ltb i node.data_length (omega (arith, count, left, size)),
          component_loop-base128_octets c i (octets cs) words.0 h,
          lt→leb max_components (length oid) (omega (arith, room)),
        )
        (oid_loop-octets cs fuel (i + length (base128_octets c)) (oid ++ (c ∷ [])) words.1
            (omega (arith, room, length-append oid (c ∷ []))) (omega (arith, enough))
            (omega (arith, left, size, inside)) behind
          ∙ ap (λ l. ok l) (append_assoc oid (c ∷ []) cs))

pub length-octets : (cs : List ℕ) → length cs ≤ length (octets cs)
length-octets [] = omega arith
length-octets (c ∷ cs) =
    omega (
      arith,
      length-octets cs,
      length-append (base128_octets c) (octets cs),
      length-base128_octets c,
    )

-- The writer's loop appends the bytes of the components where the buffer has room for them.
pub write_components-octets :
    (cs buf : List ℕ)
    → length buf + length (octets cs) ≤ 128
    → write_components cs buf ≡ ok (buf ++ octets cs)
unfolding write_components
write_components-octets [] buf room = rw append-nil
write_components-octets (c ∷ cs) buf room =
    let size = length-append (base128_octets c) (octets cs) in
    let end = length-append buf (base128_octets c) in
    rw (le→ltb 128 (length (buf ++ base128_octets c)) (omega (arith, size, end))) (
      write_components-octets cs (buf ++ base128_octets c) (omega (arith, size, end))
      ∙ ap (λ l. ok l) (append_assoc buf (base128_octets c) (octets cs)))
