-- ===== src/Iterator/Children.antt =====
-- asn1_children() and asn1_next_child() on what the parser stores.
use asn.Base.{
  ℕ, zero, suc, ◌+◌, ◌-◌, ◌≤◌, ◌<◌, ◌≡◌, refl, ap, ◌∙◌, false, none, some, List, [], ◌∷◌, ◌++◌,
  append_assoc, length, drop, drop-add, drop-append, drop-suc, get_elem?-drop, splice,
  splice-append_drop, size_mod, add_size, arith, done, lt→ltb, le→ltb, lt→leb, eq→==,
}
use asn.Parser.Header.{EncodingRules}
use asn.Parser.Node.{Node, ParseResult, asn1_parse, max_depth}
use asn.Parser.RoundTrip.{CanHold, asn1_parse-encode}
use asn.Tree.{
  Tree, Trees, leaf, branch, nil, cons, encode, encode_all, size, size_all, height, HasTags, nodes,
  nodes_all, length-nodes,
}
use asn.Iterator.Roots.{
  root, roots, below_root, nodes-root, depth-root, size-root, size_pos, child_roots,
}
use asn.Iterator.{NodeIterator, children, next_child, next_child_loop}

-- The calls of asn1_next_child() from `it` on until it returns NULL return these nodes.
pub data Visits : NodeIterator → List Node → Type 0 where
  ended : {it t : NodeIterator} → next_child it ≡ done none t → Visits it []
  visited :
      {it t : NodeIterator} {node : Node} {rest : List Node}
      → next_child it ≡ done (some node) t
      → Visits t rest
      → Visits it (node ∷ rest)

-- A direct child at the index is returned, and the index moves behind its subtree.
pub next_child-found :
    (it : NodeIterator) (node : Node) (back : List Node)
    → it.current_index < it.end_index
    → drop it.current_index it.result.nodes ≡ node ∷ back
    → node.depth ≡ it.parent_depth + 1
    → it.current_index + node.subtree_size < size_mod
    → next_child it
      ≡ done (some node) (record it { current_index = it.current_index + node.subtree_size })
unfolding next_child next_child_loop
next_child-found it node back left found child small =
    loop (it.end_index - it.current_index) (omega arith)
  where
    loop :
        (fuel : ℕ)
        → 0 < fuel
        → next_child_loop fuel it
          ≡ done (some node) (record it { current_index = it.current_index + node.subtree_size })
    loop zero h = absurd (omega arith)
    loop (suc fuel) h =
        let sum : add_size it.current_index node.subtree_size
            ≡ it.current_index + node.subtree_size =
          omega arith in
        rw (
          lt→ltb it.current_index it.end_index left,
          get_elem?-drop it.result.nodes it.current_index found,
          eq→== node.depth (it.parent_depth + 1) child,
          sum,
        )

-- Behind the last child, NULL is returned.
pub next_child-ended :
    (it : NodeIterator) → it.end_index ≤ it.current_index → next_child it ≡ done none it
unfolding next_child next_child_loop
next_child-ended it end = loop (it.end_index - it.current_index)
  where
    loop : (fuel : ℕ) → next_child_loop fuel it ≡ done none it
    loop zero = rw (le→ltb it.current_index it.end_index end)
    loop (suc fuel) = rw (le→ltb it.current_index it.end_index end)

-- The iterator over `ts`, the first of whose nodes is at the index.
Visits-roots :
    (ts : Trees) (r : ParseResult) (parent i : ℕ) (rest : List ℕ) (back : List Node)
    → drop i r.nodes ≡ nodes_all ts (parent + 1) rest ++ back
    → i + size_all ts < size_mod
    → Visits
        (record {
          result = r;
          parent_depth = parent;
          current_index = i;
          end_index = i + size_all ts;
        })
        (roots ts (parent + 1) rest)
unfolding roots size_all nodes_all
Visits-roots nil r parent i rest back h small = ended (next_child-ended _ (omega arith))
Visits-roots (cons t ts) r parent i rest back h small =
    let first = root t (parent + 1) (encode_all ts ++ rest) in
    let below = below_root t (parent + 1) (encode_all ts ++ rest) in
    let more = nodes_all ts (parent + 1) rest ++ back in
    let it : NodeIterator = record {
      result = r;
      parent_depth = parent;
      current_index = i;
      end_index = i + (size t + size_all ts);
    } in
    let starts : drop i r.nodes ≡ nodes t (parent + 1) (encode_all ts ++ rest) ++ more =
      h
      ∙ append_assoc (nodes t (parent + 1) (encode_all ts ++ rest)) (nodes_all ts (parent + 1) rest)
          back in
    let at_root : drop i r.nodes ≡ first ∷ (below ++ more) =
      rw (nodes-root t (parent + 1) (encode_all ts ++ rest)) at starts in
    let size_t = size-root t (parent + 1) (encode_all ts ++ rest) in
    let behind : drop (i + size t) r.nodes ≡ more =
      rw
        (
          ← drop-add i (size t) (i + size t) r.nodes refl,
          starts,
          ← length-nodes t (parent + 1) (encode_all ts ++ rest),
        )
        (drop-append (nodes t (parent + 1) (encode_all ts ++ rest)) more) in
    let end : i + size t + size_all ts ≡ i + (size t + size_all ts) = omega arith in
    let step = rw size_t at (
      next_child-found it first (below ++ more) (omega (arith, size_pos t)) at_root
        (depth-root t (parent + 1) (encode_all ts ++ rest)) (omega (arith, size_t))) in
    visited step (rw end at (Visits-roots ts r parent (i + size t) rest back behind (omega arith)))

-- The iterator that asn1_children() returns for the node at the index.
abbrev pub started : ParseResult → Node → ℕ → NodeIterator
started r node i = record {
  result = r;
  parent_depth = node.depth;
  current_index = i + 1;
  end_index = i + node.subtree_size;
}

pub children-started :
    (r : ParseResult) (node : Node) (i : ℕ) (back : List Node)
    → drop i r.nodes ≡ node ∷ back
    → i < r.count
    → i + 1 < size_mod
    → i + node.subtree_size < size_mod
    → children r i ≡ done (started r node i) tt
unfolding children
children-started r node i back found inside one small =
    let next : add_size i 1 ≡ i + 1 = omega arith in
    let end : add_size i node.subtree_size ≡ i + node.subtree_size = omega arith in
    rw (lt→leb r.count i inside, get_elem?-drop r.nodes i found, next, end)

-- Where the nodes of a tree stand from the index on, its children are visited.
pub children-Visits :
    (t : Tree) (r : ParseResult) (i depth : ℕ) (rest : List ℕ) (back : List Node)
    → drop i r.nodes ≡ nodes t depth rest ++ back
    → i < r.count
    → i + size t < size_mod
    → (it : NodeIterator) × (children r i ≡ done it tt) × Visits it (child_roots t depth rest)
unfolding child_roots size below_root
children-Visits (leaf id xs) r i depth rest back h inside small =
    let first = rw (nodes-root (leaf id xs) depth rest) at h in
    (
      started r (root (leaf id xs) depth rest) i,
      children-started r (root (leaf id xs) depth rest) i _ first inside (omega arith)
          (omega (arith, size-root (leaf id xs) depth rest)),
      ended (
          next_child-ended (started r (root (leaf id xs) depth rest) i)
            (omega (arith, size-root (leaf id xs) depth rest))),
    )
children-Visits (branch id ts) r i depth rest back h inside small =
    let first = rw (nodes-root (branch id ts) depth rest) at h in
    let behind : drop (i + 1) r.nodes ≡ nodes_all ts (depth + 1) rest ++ back =
      ap (λ j. drop j r.nodes) {y = suc i} (omega arith) ∙ drop-suc r.nodes i first in
    let end : i + 1 + size_all ts ≡ i + suc (size_all ts) = omega arith in
    (
      started r (root (branch id ts) depth rest) i,
      children-started r (root (branch id ts) depth rest) i _ first inside (omega arith)
          (omega (arith, size-root (branch id ts) depth rest)),
      rw end at (Visits-roots ts r depth (i + 1) rest back behind (omega arith)),
    )

-- Under both rules, asn1_parse() on the encoding of a tree succeeds, and on its result
-- asn1_children() of the root and the calls of asn1_next_child() return the first nodes of the
-- children of the tree, each once and in order, and then NULL. The tree is not deeper than the limit,
-- its tag numbers are 32 bits wide, its encoding is shorter than 2 ^ 64 and the array can hold its
-- nodes.
pub asn1_parse-children :
    (t : Tree) (rules : EncodingRules) (r : ParseResult)
    → height t < max_depth
    → HasTags t
    → length (encode t) < size_mod
    → CanHold r (size t)
    → (u : ParseResult) × (asn1_parse (some (encode t)) (length (encode t)) rules false r
        ≡ done tt u)
      × (it : NodeIterator) × (children u 0 ≡ done it tt)
      × Visits it (child_roots t 1 [])
asn1_parse-children t rules r high tags fits holds =
    let ns = nodes t 1 [] in
    let u : ParseResult = record r { nodes = splice r.nodes 0 ns; count = size t } in
    let room : length ns ≤ length r.nodes =
      omega (arith, length-nodes t 1 [], holds.enough, holds.writable) in
    let (it, begun, visits) =
      children-Visits t u 0 1 [] (drop (length ns) r.nodes) (splice-append_drop r.nodes ns room)
        (size_pos t) (omega (arith, holds.enough, holds.small)) in
    (u, asn1_parse-encode t rules r high tags fits holds, it, begun, visits)
