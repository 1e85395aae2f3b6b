-- ===== src/Parser/Shape.antt =====
-- The shape of the array of nodes (include/asn1/asn1.h, "Parse Result"): subtrees in pre-order.
use asn.Base.{
  ℕ, zero, suc, ◌+◌, ◌-◌, ◌%◌, size_mod, append-nil, drop-append_front, drop-append_back,
  Bool-cases, inl, inr, ltb, ltb→lt, ◌≤◌, ◌<◌, ◌≡◌, refl, ap, sym, ◌∙◌, List, [], ◌∷◌, ◌++◌,
  append_assoc, length, length-append, drop, arith,
}
use asn.Parser.Node.{Node, max_depth, primitive, constructed}

-- `ns` is a node of the depth with its subtree. `IsForest d ns rs` says that `ns` is a row of such
-- subtrees and `rs` the first nodes of these. A size is a `size_t`.
mutual
  pub data IsSubtree : ℕ → List Node → Type 0 where
    flat :
        {depth : ℕ} {n : Node}
        → depth ≤ max_depth
        → n.depth ≡ depth
        → n.content_type ≡ primitive
        → n.subtree_size ≡ 1
        → IsSubtree depth (n ∷ [])
    nested :
        {depth : ℕ} {n : Node} {ns rs : List Node}
        → depth ≤ max_depth
        → n.depth ≡ depth
        → n.content_type ≡ constructed
        → n.subtree_size ≡ suc (length ns) % size_mod
        → IsForest (depth + 1) ns rs
        → IsSubtree depth (n ∷ ns)

  pub data IsForest : ℕ → List Node → List Node → Type 0 where
    bare : {depth : ℕ} → IsForest depth [] []
    planted :
        {depth : ℕ} {n : Node} {ns ms rs : List Node}
        → IsSubtree depth (n ∷ ns)
        → IsForest depth ms rs
        → IsForest depth (n ∷ (ns ++ ms)) (n ∷ rs)

-- A row of subtrees, whatever its first nodes are.
abbrev pub IsRow : ℕ → List Node → Type 0
IsRow depth ns = (rs : List Node) × IsForest depth ns rs

pub IsRow-append :
    {depth : ℕ} (ns ms : List Node) → IsSubtree depth ns → IsRow depth ms → IsRow depth (ns ++ ms)
IsRow-append (n ∷ ns) ms t (rs, f) = (n ∷ rs, planted t f)
IsRow-append [] ms t f = elim t [ ]

pub IsSubtree-pos : {depth : ℕ} {ns : List Node} → IsSubtree depth ns → 1 ≤ length ns
IsSubtree-pos (flat a b c d) = omega arith
IsSubtree-pos (nested a b c d f) = omega arith

-- Each node of a row begins a subtree.
mutual
  IsSubtree-drop :
      {depth : ℕ} {ns : List Node} (i : ℕ)
      → IsSubtree depth ns
      → i < length ns
      → (d : ℕ) × (ms : List Node) × (back : List Node) × (drop i ns ≡ ms ++ back) × IsSubtree d ms
  IsSubtree-drop zero (flat a b c e) h = (_, _, [], refl, flat a b c e)
  IsSubtree-drop {ns = ns} zero (nested a b c e f) h =
      (_, ns, [], sym (append-nil ns), nested a b c e f)
  IsSubtree-drop (suc i) (flat a b c e) h = absurd (omega arith)
  IsSubtree-drop (suc i) (nested a b c e f) h = IsForest-drop i f (omega arith)

  IsForest-drop :
      {depth : ℕ} {ns rs : List Node} (i : ℕ)
      → IsForest depth ns rs
      → i < length ns
      → (d : ℕ) × (ms : List Node) × (back : List Node) × (drop i ns ≡ ms ++ back) × IsSubtree d ms
  IsForest-drop i bare h = absurd (omega arith)
  IsForest-drop i (planted {n} {ns} {ms} t f) h = elim (Bool-cases (ltb i (length (n ∷ ns)))) [
    | inl inside ↦
        let (d, us, back, e, u) = IsSubtree-drop i t (ltb→lt _ _ inside) in
        (
          d,
          us,
          back ++ ms,
          drop-append_front (n ∷ ns) ms i (ground arith)
              ∙ ap (λ l. l ++ ms) e
              ∙ append_assoc us back ms,
          u,
        )
    | inr behind ↦
        let (d, us, back, e, u) =
          IsForest-drop (i - length (n ∷ ns)) f (ground (arith, length-append ns ms)) in
        (d, us, back, drop-append_back (n ∷ ns) ms i (ground arith) ∙ e, u)
  ]

-- Every position of a subtree begins a subtree.
pub IsSubtree-at :
    {depth : ℕ} {ns : List Node} (i : ℕ)
    → IsSubtree depth ns
    → i < length ns
    → (d : ℕ) × (ms : List Node) × (back : List Node) × (drop i ns ≡ ms ++ back) × IsSubtree d ms
IsSubtree-at i t h = IsSubtree-drop i t h
