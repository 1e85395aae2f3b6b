-- ===== src/Parser/Grammar.antt =====
-- What the parser accepts, as a grammar of bytes: the basic encoding rules, and the distinguished ones,
-- of identifiers, lengths and values, with the nodes that stand for a value (include/asn1/asn1.h).
use asn.Base.{
  ℕ, zero, suc, ◌+◌, ◌*◌, ◌/◌, ◌%◌, ◌^◌, ◌≤◌, ◌<◌, ◌≡◌, Bool, true, false, not, ◌==◌, Option, none,
  some, List, [], ◌∷◌, ◌++◌, length, All, IsByte, size_mod,
}
use asn.Buffer.{Pointer}
use asn.Encoding.{encode_length}
use asn.Identifier.{Identifier, class_of}
use asn.Parser.Header.{EncodingRules, ber, der, Length, definite, indefinite}
use asn.Parser.Node.{Node, ContentType, primitive, constructed, max_depth}

-- The number of digits in base 256 behind `v`, and of groups of seven bits.
abbrev pub number_from : ℕ → List ℕ → ℕ
number_from v [] = v
number_from v (x ∷ xs) = number_from (v * 256 + x) xs

abbrev pub groups_from : ℕ → List ℕ → ℕ
groups_from v [] = v
groups_from v (x ∷ xs) = groups_from (v * 128 + x % 128) xs

-- The bit of the first byte for a constructed value.
abbrev pub is_composite : ℕ → Bool
is_composite b = not (b / 32 % 2 == 0)

-- The bytes of an identifier: one, or one before the groups of the tag number. At most five groups
-- are read, and the tag number is cut to 32 bits.
pub data IsTag (xs : List ℕ) (id : Identifier) (composite : Bool) : Type 0 where
  one_byte :
      (b : ℕ)
      → b % 32 < 31
      → xs ≡ b ∷ []
      → id ≡ record { tag_number = b % 32; tag_class = class_of (b / 64) }
      → composite ≡ is_composite b
      → IsTag xs id composite
  grouped :
      (b : ℕ) (gs : List ℕ) (y : ℕ)
      → b % 32 ≡ 31
      → All (λ g. 128 ≤ g) gs
      → y < 128
      → length gs ≤ 4
      → xs ≡ b ∷ (gs ++ (y ∷ []))
      → id ≡ record {
        tag_number = groups_from 0 (gs ++ (y ∷ [])) % 2 ^ 32;
        tag_class = class_of (b / 64);
      }
      → 31 ≤ groups_from 0 (gs ++ (y ∷ [])) % 2 ^ 32
      → composite ≡ is_composite b
      → IsTag xs id composite

-- The bytes of a length. Under DER it is what asn1_encode_length() writes.
pub data IsLength (rules : EncodingRules) (xs : List ℕ) (l : Length) : Type 0 where
  exact : (n : ℕ) → rules ≡ der → xs ≡ encode_length n → l ≡ definite n → IsLength rules xs l
  short : (n : ℕ) → rules ≡ ber → n < 128 → xs ≡ n ∷ [] → l ≡ definite n → IsLength rules xs l
  long :
      (ds : List ℕ)
      → rules ≡ ber
      → 1 ≤ length ds
      → length ds ≤ 8
      → All IsByte ds
      → xs ≡ (128 + length ds) ∷ ds
      → l ≡ definite (number_from 0 ds)
      → IsLength rules xs l
  open_end : rules ≡ ber → xs ≡ 128 ∷ [] → l ≡ indefinite → IsLength rules xs l

-- An identifier and a length behind it.
pub record IsHeader (rules : EncodingRules) (xs : List ℕ) (id : Identifier) (composite : Bool)
    (l : Length) : Type 0 where
  pub tag_bytes : List ℕ
  pub length_bytes : List ℕ
  pub parts : xs ≡ tag_bytes ++ length_bytes
  pub tag : IsTag tag_bytes id composite
  pub size : IsLength rules length_bytes l

-- The end-of-contents octets.
abbrev pub is_end_marker : List ℕ → Bool
is_end_marker (zero ∷ zero ∷ xs) = true
is_end_marker _ = false

-- The node of a value that stands in `bytes` before `rest`.
abbrev pub value_node :
    Identifier → ContentType → ℕ → List ℕ → List ℕ → Option Pointer → ℕ → ℕ → Node
value_node id type depth bytes rest content n size = record {
  identifier = id;
  content_type = type;
  encoded_bytes = bytes ++ rest;
  encoded_length = length bytes;
  data_bytes = content;
  data_length = n;
  depth = depth;
  subtree_size = size;
}

-- A primitive node points to its content, a constructed one counts the nodes below it.
abbrev pub flat_node : Identifier → ℕ → List ℕ → List ℕ → List ℕ → Node
flat_node id depth bytes content rest =
    value_node id primitive depth bytes rest (some (content ++ rest)) (length content) 1

abbrev pub nested_node : Identifier → ℕ → List ℕ → List ℕ → List Node → Node
nested_node id depth bytes rest below =
    value_node id constructed depth bytes rest none 0 (suc (length below) % size_mod)

-- The bytes of one value at the depth, and of a row of values, with what is behind them and the
-- nodes in pre-order. In a row that ends at a marker no value begins as the marker does.
mutual
  pub data IsValue (rules : EncodingRules) : ℕ → List ℕ → List ℕ → List Node → Type 0 where
    flat_value :
        {depth : ℕ} {bytes rest : List ℕ} {nodes : List Node} (head content : List ℕ)
        (id : Identifier)
        → depth ≤ max_depth
        → IsHeader rules head id false (definite (length content))
        → bytes ≡ head ++ content
        → nodes ≡ flat_node id depth bytes content rest ∷ []
        → IsValue rules depth bytes rest nodes
    nested_value :
        {depth : ℕ} {bytes rest : List ℕ} {nodes : List Node} (head content : List ℕ)
        (id : Identifier) (below : List Node)
        → depth ≤ max_depth
        → IsHeader rules head id true (definite (length content))
        → IsValues rules false (depth + 1) content rest below
        → bytes ≡ head ++ content
        → nodes ≡ nested_node id depth bytes rest below ∷ below
        → IsValue rules depth bytes rest nodes
    open_value :
        {depth : ℕ} {bytes rest : List ℕ} {nodes : List Node} (head content : List ℕ)
        (id : Identifier) (below : List Node)
        → depth ≤ max_depth
        → IsHeader rules head id true indefinite
        → IsValues rules true (depth + 1) content (0 ∷ 0 ∷ rest) below
        → bytes ≡ head ++ (content ++ (0 ∷ 0 ∷ []))
        → nodes ≡ nested_node id depth bytes rest below ∷ below
        → IsValue rules depth bytes rest nodes

  pub data IsValues (rules : EncodingRules) : Bool → ℕ → List ℕ → List ℕ → List Node → Type 0 where
    ended : {marked : Bool} {depth : ℕ} {rest : List ℕ} → IsValues rules marked depth [] rest []
    more :
        {marked : Bool} {depth : ℕ} {bytes rest : List ℕ} {nodes : List Node} (xs ys : List ℕ)
        (ns ms : List Node)
        → (marked ≡ true → is_end_marker (bytes ++ rest) ≡ false)
        → IsValue rules depth xs (ys ++ rest) ns
        → IsValues rules marked depth ys rest ms
        → bytes ≡ xs ++ ys
        → nodes ≡ ns ++ ms
        → IsValues rules marked depth bytes rest nodes
