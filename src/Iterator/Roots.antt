-- ===== src/Iterator/Roots.antt =====
-- The first nodes of the trees that asn1_parse() stores.
use asn.Base.{ℕ, ◌+◌, ◌≡◌, ◌<◌, refl, none, some, List, [], ◌∷◌, ◌++◌, length, arith}
use asn.Parser.Node.{Node, primitive, constructed}
use asn.Tree.{Tree, Trees, leaf, branch, nil, cons, encode, encode_all, size, nodes, nodes_all}

-- The first node of a tree, and those of the trees in a row.
unfoldable pub root : Tree → ℕ → List ℕ → Node
root (leaf id xs) depth rest = record {
  identifier = id;
  content_type = primitive;
  encoded_bytes = encode (leaf id xs) ++ rest;
  encoded_length = length (encode (leaf id xs));
  data_bytes = some (xs ++ rest);
  data_length = length xs;
  depth = depth;
  subtree_size = 1;
}
root (branch id ts) depth rest = record {
  identifier = id;
  content_type = constructed;
  encoded_bytes = encode (branch id ts) ++ rest;
  encoded_length = length (encode (branch id ts));
  data_bytes = none;
  data_length = 0;
  depth = depth;
  subtree_size = size (branch id ts);
}

unfoldable pub roots : Trees → ℕ → List ℕ → List Node
unfolding root
roots nil depth rest = []
roots (cons t ts) depth rest = root t depth (encode_all ts ++ rest) ∷ roots ts depth rest

-- The nodes of a tree begin with its root, which says how many they are.
unfoldable pub below_root : Tree → ℕ → List ℕ → List Node
below_root (leaf id xs) depth rest = []
below_root (branch id ts) depth rest = nodes_all ts (depth + 1) rest

pub nodes-root :
    (t : Tree) (depth : ℕ) (rest : List ℕ)
    → nodes t depth rest ≡ root t depth rest ∷ below_root t depth rest
unfolding nodes root below_root
nodes-root (leaf id xs) depth rest = refl
nodes-root (branch id ts) depth rest = refl

pub depth-root : (t : Tree) (depth : ℕ) (rest : List ℕ) → (root t depth rest).depth ≡ depth
unfolding root
depth-root (leaf id xs) depth rest = refl
depth-root (branch id ts) depth rest = refl

pub size-root : (t : Tree) (depth : ℕ) (rest : List ℕ) → (root t depth rest).subtree_size ≡ size t
unfolding root size
size-root (leaf id xs) depth rest = refl
size-root (branch id ts) depth rest = refl

pub size_pos : (t : Tree) → 0 < size t
unfolding size
size_pos (leaf id xs) = omega arith
size_pos (branch id ts) = omega arith

-- The children of a tree: a leaf has none.
unfoldable pub child_roots : Tree → ℕ → List ℕ → List Node
unfolding roots
child_roots (leaf id xs) depth rest = []
child_roots (branch id ts) depth rest = roots ts (depth + 1) rest
