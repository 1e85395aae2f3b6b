-- ===== src/Iterator/Subtrees.antt =====
-- asn1_children() and asn1_next_child() on any node that asn1_parse() stores, whatever the input.
use asn.Base.{
  ℕ, suc, ◌+◌, ◌≤◌, ◌<◌, ◌≡◌, ap, sym, ◌∙◌, false, some, List, [], ◌∷◌, ◌++◌, append_assoc, length,
  length-append, length-take, length-drop, drop, drop-add, drop-append, drop-suc, drop-append_front,
  take-drop, size_mod, arith, done, Returns, returned,
}
use asn.Buffer.{Pointer}
use asn.Parser.Header.{EncodingRules}
use asn.Parser.Node.{Node, ParseResult, asn1_parse}
use asn.Parser.Shape.{IsSubtree, IsForest, flat, nested, bare, planted, IsSubtree-at}
use asn.Parser.Storing.{stored}
use asn.Parser.Totality.{IsFitting, asn1_parse-IsSubtree}
use asn.Iterator.{NodeIterator, children}
use asn.Iterator.Children.{
  Visits, ended, visited, next_child-found, next_child-ended, started, children-started,
}

-- The depth and the size that the first node of a subtree carries.
depth-first : {depth : ℕ} {n : Node} {ns : List Node} → IsSubtree depth (n ∷ ns) → n.depth ≡ depth
depth-first (flat a b c d) = b
depth-first (nested a b c d f) = b

size-first :
    {depth : ℕ} {n : Node} {ns : List Node}
    → IsSubtree depth (n ∷ ns)
    → suc (length ns) < size_mod
    → n.subtree_size ≡ suc (length ns)
size-first (flat a b c d) h = d
size-first (nested a b c d f) h = omega (arith, d)

-- The iterator over a row of subtrees that begins at the index.
Visits-IsForest :
    (r : ParseResult) (parent i : ℕ) {depth : ℕ} {ns rs : List Node} (back : List Node)
    → IsForest depth ns rs
    → depth ≡ parent + 1
    → drop i r.nodes ≡ ns ++ back
    → i + length ns < size_mod
    → Visits
        (record { result = r; parent_depth = parent; current_index = i; end_index = i + length ns })
        rs
Visits-IsForest r parent i back bare one h small = ended (next_child-ended _ (omega arith))
Visits-IsForest r parent i back (planted {n} {ns} {ms} t f) one h small =
    let size = size-first t (omega (arith, length-append ns ms)) in
    let end : i + n.subtree_size + length ms ≡ i + suc (length (ns ++ ms)) =
      omega (arith, size, length-append ns ms) in
    let it : NodeIterator = record {
      result = r;
      parent_depth = parent;
      current_index = i;
      end_index = i + suc (length (ns ++ ms));
    } in
    let behind : drop (i + n.subtree_size) r.nodes ≡ ms ++ back =
      sym (drop-add i (suc (length ns)) (i + n.subtree_size) r.nodes (omega (arith, size)))
      ∙ ap (drop (suc (length ns))) (h ∙ append_assoc (n ∷ ns) ms back)
      ∙ drop-append (n ∷ ns) (ms ++ back) in
    let step =
      next_child-found it n ((ns ++ ms) ++ back) (omega arith) h (depth-first t ∙ one)
        (omega (arith, size, length-append ns ms)) in
    visited step (
      rw end at (
        Visits-IsForest r parent (i + n.subtree_size) back f one behind
          (omega (arith, size, length-append ns ms))))

-- What the iterator gives for the node at the index: the subtrees below the node are a row, the size
-- of the node counts them, and the calls of asn1_next_child() return their first nodes, each once and
-- in order.
pub record Browses (u : ParseResult) (i : ℕ) : Type 0 where
  pub node : Node
  pub below : List Node
  pub firsts : List Node
  pub back : List Node
  pub here : drop i (stored u) ≡ node ∷ (below ++ back)
  pub counted : node.subtree_size ≡ suc (length below)
  pub row : IsForest (node.depth + 1) below firsts
  pub iterator : NodeIterator
  pub begun : children u i ≡ done iterator tt
  pub visits : Visits iterator firsts

-- What stands in the array from a stored node on.
in_nodes :
    (u : ParseResult) (i : ℕ) {n : Node} {ns : List Node}
    → drop i (stored u) ≡ n ∷ ns
    → i ≤ length (stored u)
    → drop i u.nodes ≡ n ∷ (ns ++ drop u.count u.nodes)
in_nodes u i e inside =
    ap (drop i) (sym (take-drop u.count u.nodes))
    ∙ drop-append_front (stored u) (drop u.count u.nodes) i inside
    ∙ ap (λ l. l ++ drop u.count u.nodes) e

-- Below a node of a subtree.
Browses-IsSubtree :
    (u : ParseResult) (i : ℕ) {depth : ℕ} (ns back : List Node)
    → IsSubtree depth ns
    → drop i (stored u) ≡ ns ++ back
    → i + length ns ≤ length (stored u)
    → length (stored u) ≤ u.count
    → u.count < size_mod
    → Browses u i
Browses-IsSubtree u i [] back t e inside fits small = elim t [ ]
Browses-IsSubtree u i (n ∷ []) back (flat low d c size) e inside fits small = record {
  node = n;
  below = [];
  firsts = [];
  back = back;
  here = e;
  counted = size;
  row = bare;
  iterator = started u n i;
  begun =
      children-started u n i (back ++ drop u.count u.nodes) (in_nodes u i e (omega arith))
        (omega arith) (omega arith) (omega (arith, size));
  visits = ended (next_child-ended (started u n i) (omega (arith, size)));
}
Browses-IsSubtree u i (n ∷ ns) back (nested {rs = rs} low d c size f) e inside fits small =
    let whole = in_nodes u i e (omega arith) in
    let counted : n.subtree_size ≡ suc (length ns) = omega (arith, size) in
    let behind : drop (i + 1) u.nodes ≡ ns ++ (back ++ drop u.count u.nodes) =
      ap (λ j. drop j u.nodes) {y = suc i} (omega arith)
      ∙ drop-suc u.nodes i whole
      ∙ append_assoc ns back (drop u.count u.nodes) in
    let end : i + 1 + length ns ≡ i + n.subtree_size = omega (arith, counted) in
    let level : suc n.depth ≡ n.depth + 1 = omega arith in
    record {
      node = n;
      below = ns;
      firsts = rs;
      back = back;
      here = e;
      counted = counted;
      row = rw d f;
      iterator = started u n i;
      begun = children-started u n i _ whole (omega arith) (omega arith) (omega (arith, counted));
      visits = rw end at (
          Visits-IsForest u n.depth (i + 1) (back ++ drop u.count u.nodes) f (omega (arith, d))
            behind (omega arith));
    }

from_done :
    {E S A : Type 0} {P : A → S → Type 0} {Q : S → Type 0} {a : A} {s : S}
    → Returns {E = E} P Q (done a s)
    → P a s
from_done (returned h) = h

same_input :
    (d : Pointer) (len : ℕ) → len ≤ length d → (e : Pointer) → some d ≡ some e → len ≤ length e
same_input d len h e same = let it : d ≡ e = cc in rw it at h

-- Where asn1_parse() succeeded on any input, under either rules, the iterator works on each node that
-- it stored: the node is followed by the subtrees of its children, in a row and one level down, its
-- size counts them, and asn1_children() and the calls of asn1_next_child() return their first nodes,
-- each once and in order, and then NULL. The input and the array of nodes are as long as the caller
-- says, the count was within the capacity, and the new count is below 2 ^ 64.
pub asn1_parse-Browses :
    (d : Pointer) (len : ℕ) (rules : EncodingRules) (r u : ParseResult) (i : ℕ)
    → len ≤ length d
    → IsFitting r
    → asn1_parse (some d) len rules false r ≡ done tt u
    → i < u.count
    → u.count < size_mod
    → Browses u i
asn1_parse-Browses d len rules r u i readable h ran inside small =
    let given : IsFitting u × IsSubtree 1 (stored u) =
      from_done (
        rw ran at
          (asn1_parse-IsSubtree (some d) len rules false r (same_input d len readable) h)) in
    let fits = given.0 in
    let tree = given.1 in
    let whole : length (stored u) ≡ u.count =
      length-take u.count u.nodes (omega (arith, fits.filled, fits.writable)) in
    let (depth, ns, back, e, t) = IsSubtree-at i tree (omega (arith, whole)) in
    Browses-IsSubtree u i ns back t e
      (omega (arith, whole, length-drop i (stored u), ap length e, length-append ns back))
      (omega (arith, whole)) small
