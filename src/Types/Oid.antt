-- ===== src/Types/Oid.antt =====
-- asn1_types.c and asn1_types.h: OBJECT IDENTIFIER. An `asn1_oid_t` is the list of its first `count`
-- components.
pub mod Components
pub mod RoundTrip
pub mod Safety
pub mod Text
pub mod Shown
pub mod Equality
use asn.Base.{
  ℕ, zero, suc, ◌+◌, ◌*◌, ◌/◌, ◌%◌, ◌^◌, Bool, true, false, ◌&&◌, ◌||◌, List, [], ◌∷◌, ◌++◌, length,
  ltb, leb, ◌==◌, if◌then◌else◌, done, failed, fault, out_of_fuel, access, bind, bit_and,
}
use asn.Error.{Op, asn1_error, invalid_oid, buffer_too_small}
use asn.Identifier.{id_object_identifier}
use asn.Encoding.{base128_octets}
use asn.Parser.Header.{push_group}
use asn.Parser.Node.{Node}
use asn.Serializer.{Serializer, serialize_primitive}
use asn.Types.Access.{Parsed, ok, error, byte_at, expect}

-- ASN1_OID_MAX_COMPONENTS
abbrev pub max_components : ℕ
max_components = 32

-- `if (oid->count >= ASN1_OID_MAX_COMPONENTS) return …; oid->components[oid->count++] = value;`
unfoldable pub add_component : List ℕ → ℕ → Parsed (List ℕ)
add_component oid value =
    if leb max_components (length oid)
    then error invalid_oid "Too many OID components"
    else ok (oid ++ (value ∷ []))

-- The inner loop of asn1_parse_oid() from index `i`, with `left = 5 - byte_count` rounds left: the
-- component and the index behind it.
unfoldable pub component_loop : Node → ℕ → ℕ → ℕ → Parsed (ℕ × ℕ)
unfolding byte_at
component_loop node zero i value =
    if leb node.data_length i
    then error invalid_oid "Truncated OID component"
    else error invalid_oid "OID component too large"
component_loop node (suc left) i value =
    if leb node.data_length i
    then error invalid_oid "Truncated OID component"
    else bind (access (byte_at node i) tt) (λ byte _.
      let value' = push_group value byte in
      let more = component_loop node left (i + 1) value' in
      if bit_and byte 0x80 == 0 then ok (value', i + 1) else more)

-- The outer loop; a round takes a byte, so `data_length` rounds are enough.
unfoldable pub oid_loop : Node → ℕ → ℕ → List ℕ → Parsed (List ℕ)
unfolding component_loop add_component
oid_loop node zero i oid = if ltb i node.data_length then out_of_fuel else ok oid
oid_loop node (suc fuel) i oid =
    let next =
      bind (component_loop node 5 i 0)
        (λ (value, j) _. bind (add_component oid value) (λ oid' _. oid_loop node fuel j oid')) in
    if ltb i node.data_length then next else ok oid

-- asn1_parse_oid(): the first byte holds two components.
unfoldable pub parse_oid : Node → Parsed (List ℕ)
unfolding expect oid_loop
parse_oid node =
    expect node id_object_identifier "Expected OBJECT IDENTIFIER" "OID must be primitive" (
      if node.data_length == 0
      then error invalid_oid "OID cannot be empty"
      else bind (access (byte_at node 0) tt) (λ first _.
        bind (add_component [] (first / 40)) λ one _.
          bind (add_component one (first % 40)) λ two _. oid_loop node node.data_length 1 two))

-- The components behind the first two, written behind `buf`, which holds 128 bytes.
unfoldable pub write_components : List ℕ → List ℕ → Parsed (List ℕ)
unfolding base128_octets
write_components [] buf = ok buf
write_components (c ∷ cs) buf =
    let out = buf ++ base128_octets c in
    let rest = write_components cs out in
    if ltb 128 (length out) then error buffer_too_small "OID too large" else rest

-- asn1_serialize_oid()
unfoldable pub serialize_oid : List ℕ → Op Serializer (Unit {0})
unfolding write_components serialize_primitive
serialize_oid (c0 ∷ c1 ∷ cs) s =
    if ltb 2 c0 || ltb c0 2 && ltb 39 c1
    then failed (asn1_error invalid_oid "Invalid first two OID components" 0) s
    else elim (write_components cs (((c0 * 40 + c1) % 2 ^ 32 % 2 ^ 8) ∷ [])) [
      | done buf _ ↦ serialize_primitive id_object_identifier buf (length buf) s
      | failed e _ ↦ failed e s
      | fault ↦ fault
      | out_of_fuel ↦ out_of_fuel
    ]
serialize_oid _ s = failed (asn1_error invalid_oid "OID must have at least 2 components" 0) s

-- asn1_oid_equal()
unfoldable pub oid_equal : List ℕ → List ℕ → Bool
oid_equal [] [] = true
oid_equal (x ∷ xs) (y ∷ ys) = x == y && oid_equal xs ys
oid_equal _ _ = false
