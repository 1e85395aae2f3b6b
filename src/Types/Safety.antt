-- ===== src/Types/Safety.antt =====
-- asn1_types.c: the parsers on any node whose data lies within an array. No read leaves the array.
use asn.Base.{
  ℕ, zero, suc, ◌≤◌, ◌<◌, ◌≡◌, not, some, List, [], ◌∷◌, length, get_elem?, get_elem?-lt, ltb,
  arith, access, All, IsByte, String, Returns, Returns-bind, Returns-if, returned, raised,
}
use asn.Buffer.{Pointer}
use asn.Identifier.{Identifier, identifier_equal}
use asn.Parser.Node.{Node}
use asn.Types.Access.{Parsed, byte_at, expect, is_primitive}
use asn.Types.Integer.{check_padding, is_padded}

-- The data of the node lies within an array of bytes.
pub record IsInside (node : Node) : Type 0 where
  pub array : Pointer
  pub found : node.data_bytes ≡ some array
  pub enough : node.data_length ≤ length array
  pub octets : All IsByte array

-- The parser returns, and `P` holds of what it returns.
abbrev pub Reads : {A : Type 0} → (A → Type 0) → Parsed A → Type 0
Reads P m = Returns (λ a _. P a) (λ _. Unit) m

pub expect-Reads :
    {A : Type 0} {P : A → Type 0} (node : Node) (id : Identifier) (a b : String) (rest : Parsed A)
    → Reads P rest
    → Reads P (expect node id a b rest)
unfolding expect
expect-Reads node id a b rest h =
    Returns-if (not (identifier_equal node.identifier id)) (λ _. raised tt)
      (λ _. Returns-if (not (is_primitive node.content_type)) (λ _. raised tt) (λ _. h))

pub All-get_elem? :
    (xs : List ℕ) (i : ℕ) (x : ℕ) → All IsByte xs → get_elem? xs i ≡ some x → IsByte x
All-get_elem? [] i x h e = cc
All-get_elem? (y ∷ ys) zero x (p, h) e = let same : y ≡ x = cc in rw same at p
All-get_elem? (y ∷ ys) (suc i) x (p, h) e = All-get_elem? ys i x h e

-- A read below the length of the data.
pub byte_at-Reads :
    (node : Node) (i : ℕ)
    → IsInside node
    → i < node.data_length
    → Reads IsByte (access (byte_at node i) tt)
unfolding byte_at
byte_at-Reads node i h low =
    let (x, e) = get_elem?-lt h.array i (omega (arith, h.enough)) in
    rw (h.found, e) (returned (All-get_elem? h.array i x h.octets e))

pub check_padding-Reads :
    (node : Node) → IsInside node → Reads (λ _. Unit) (check_padding node node.data_length)
unfolding check_padding
check_padding-Reads node h =
    Returns-if (ltb 1 node.data_length)
      (λ two. Returns-bind (byte_at-Reads node 0 h (ground arith)) λ first _ _.
        Returns-bind (byte_at-Reads node 1 h (ground arith))
          λ second _ _. Returns-if (is_padded first second) (λ _. raised tt) (λ _. returned tt))
      (λ _. returned tt)
