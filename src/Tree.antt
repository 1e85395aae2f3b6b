-- ===== src/Tree.antt =====
-- The abstract view of the library: a value is a tree of tagged octet strings, its DER encoding is a
-- list of bytes, and its parse is the list of its nodes in pre-order (include/asn1/asn1.h,
-- "Parse Result"). The code has no such type: the parser and the serializer meet in it.
use asn.Base.{
  ℕ, suc, ◌+◌, ◌<◌, ◌^◌, ◌≡◌, refl, true, false, none, some, List, [], ◌∷◌, ◌++◌, length,
  length-append, arith,
}
use asn.Identifier.{Identifier}
use asn.Encoding.{encode_identifier, encode_length}
use asn.Parser.Node.{Node, primitive, constructed}
use Prim.Native.Nat.{max}

mutual
  pub data Tree : Type 0 where
    leaf : Identifier → List ℕ → Tree
    branch : Identifier → Trees → Tree

  pub data Trees : Type 0 where
    nil : Trees
    cons : Tree → Trees → Trees

unfoldable mutual
  pub encode : Tree → List ℕ
  encode (leaf id xs) = encode_identifier id false ++ (encode_length (length xs) ++ xs)
  encode (branch id ts) =
      encode_identifier id true ++ (encode_length (length (encode_all ts)) ++ encode_all ts)

  pub encode_all : Trees → List ℕ
  encode_all nil = []
  encode_all (cons t ts) = encode t ++ encode_all ts

-- The number of nodes.
unfoldable mutual
  pub size : Tree → ℕ
  size (leaf id xs) = 1
  size (branch id ts) = suc (size_all ts)

  pub size_all : Trees → ℕ
  size_all nil = 0
  size_all (cons t ts) = size t + size_all ts

-- The number of levels below the root.
unfoldable mutual
  pub height : Tree → ℕ
  height (leaf id xs) = 0
  height (branch id ts) = height_all ts

  pub height_all : Trees → ℕ
  height_all nil = 0
  height_all (cons t ts) = max (suc (height t)) (height_all ts)

-- Every tag number is a `uint32_t`.
unfoldable mutual
  pub HasTags : Tree → Type 0
  HasTags (leaf id xs) = id.tag_number < 2 ^ 32
  HasTags (branch id ts) = (id.tag_number < 2 ^ 32) × AllHaveTags ts

  pub AllHaveTags : Trees → Type 0
  AllHaveTags nil = Unit
  AllHaveTags (cons t ts) = HasTags t × AllHaveTags ts

-- The nodes at the given depth, where `rest` follows the encoding in the input.
unfoldable mutual
  pub nodes : Tree → ℕ → List ℕ → List Node
  nodes (leaf id xs) depth rest =
      record {
        identifier = id;
        content_type = primitive;
        encoded_bytes = encode (leaf id xs) ++ rest;
        encoded_length = length (encode (leaf id xs));
        data_bytes = some (xs ++ rest);
        data_length = length xs;
        depth = depth;
        subtree_size = 1;
      }
      ∷ []
  nodes (branch id ts) depth rest =
      record {
        identifier = id;
        content_type = constructed;
        encoded_bytes = encode (branch id ts) ++ rest;
        encoded_length = length (encode (branch id ts));
        data_bytes = none;
        data_length = 0;
        depth = depth;
        subtree_size = size (branch id ts);
      }
      ∷ nodes_all ts (depth + 1) rest

  pub nodes_all : Trees → ℕ → List ℕ → List Node
  nodes_all nil depth rest = []
  nodes_all (cons t ts) depth rest =
      nodes t depth (encode_all ts ++ rest) ++ nodes_all ts depth rest

mutual
  unfolding nodes size

  pub length-nodes : (t : Tree) (depth : ℕ) (rest : List ℕ) → length (nodes t depth rest) ≡ size t
  length-nodes (leaf id xs) depth rest = refl
  length-nodes (branch id ts) depth rest = omega (arith, length-nodes_all ts (depth + 1) rest)

  pub length-nodes_all :
      (ts : Trees) (depth : ℕ) (rest : List ℕ) → length (nodes_all ts depth rest) ≡ size_all ts
  length-nodes_all nil depth rest = refl
  length-nodes_all (cons t ts) depth rest = omega (
    arith,
    length-append (nodes t depth (encode_all ts ++ rest)) (nodes_all ts depth rest),
    length-nodes t depth (encode_all ts ++ rest),
    length-nodes_all ts depth rest,
  )
