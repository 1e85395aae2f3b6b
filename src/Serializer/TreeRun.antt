-- ===== src/Serializer/TreeRun.antt =====
-- A tree written by calls of the serializer, and parsed again.
use asn.Base.{
  ℕ, ◌+◌, ◌^◌, ◌≤◌, ◌<◌, ◌≡◌, refl, ◌∙◌, List, [], ◌++◌, append_assoc, append-nil, length,
  length-append, arith, done, ◌>>=◌, ◌>>◌, return, true,
}
use Prim.Native.Nat.{max}
use asn.Error.{Op}
use asn.Identifier.{Identifier}
use asn.Encoding.{encode_identifier, encode_length}
use asn.Serializer.{Serializer, serialize_primitive, constructed_begin, constructed_end}
use asn.Serializer.Writes.{Holds, appended, Holds-appended, serialize_primitive-appended}
use asn.Serializer.Constructed.{placeholder, length-written, constructed_begin-appended}
use asn.Serializer.Closing.{closed, constructed_end-closed, Holds-closed}
use asn.Tree.{Tree, Trees, leaf, branch, nil, cons, encode, encode_all}

-- The calls by which a client writes a tree.
unfoldable mutual
  pub serialize_tree : Tree → Op Serializer (Unit {0})
  serialize_tree (leaf id xs) = serialize_primitive id xs (length xs)
  serialize_tree (branch id ts) = do
    marker ← constructed_begin id
    serialize_trees ts
    constructed_end marker

  pub serialize_trees : Trees → Op Serializer (Unit {0})
  serialize_trees nil = return tt
  serialize_trees (cons t ts) = do serialize_tree t; serialize_trees ts

-- The room that the calls take, with the five bytes that stand for each open length.
unfoldable mutual
  pub peak : Tree → ℕ
  peak (leaf id xs) = length (encode (leaf id xs))
  peak (branch id ts) = length (encode_identifier id true) + 5 + peak_all ts

  pub peak_all : Trees → ℕ
  peak_all nil = 0
  peak_all (cons t ts) = max (peak t) (length (encode t) + peak_all ts)

-- The content of each constructed value is shorter than 4 GiB.
unfoldable mutual
  pub IsShort : Tree → Type 0
  IsShort (leaf id xs) = Unit
  IsShort (branch id ts) = (length (encode_all ts) < 2 ^ 32) × AreShort ts

  pub AreShort : Trees → Type 0
  AreShort nil = Unit
  AreShort (cons t ts) = IsShort t × AreShort ts

-- `m` succeeds on `s` and appends `xs` to what is written.
abbrev pub Writes : Op Serializer (Unit {0}) → Serializer → List ℕ → List ℕ → Type 0
Writes m s out xs =
    (t : Serializer) × (m s ≡ done tt t) × Holds t (out ++ xs) × (t.capacity ≡ s.capacity)

regroup : (ws xs ys zs : List ℕ) → (ws ++ (xs ++ ys)) ++ zs ≡ (ws ++ xs) ++ (ys ++ zs)
regroup ws xs ys zs = simp append_assoc

-- The content `m` between the calls that begin and end a constructed value, where `m` takes `n` bytes.
pub constructed-Writes :
    (id : Identifier) (m : Op Serializer (Unit {0})) (content : List ℕ) (n : ℕ) (s : Serializer)
    (out : List ℕ)
    → Holds s out
    → length content < 2 ^ 32
    → s.length + (length (encode_identifier id true) + 5 + n) ≤ s.capacity
    → ((t : Serializer) (ws : List ℕ)
        → Holds t ws
        → t.length + n ≤ t.capacity
        → Writes m t ws content)
    → Writes
        (do marker ← constructed_begin id; m; constructed_end marker)
        s
        out
        (encode_identifier id true ++ (encode_length (length content) ++ content))
constructed-Writes id m content n s out h short room run =
    let first = encode_identifier id true in
    let opening = first ++ placeholder in
    let size = length-append first placeholder in
    let h1 = Holds-appended s out opening h (omega arith) in
    let (t, ran, h2, cap) = run (appended s opening) (out ++ opening) h1 (omega arith) in
    let front = out ++ first in
    let whole : Holds t (front ++ (placeholder ++ content)) =
      rw (regroup out first placeholder content) at h2 in
    let marker : s.length + length first ≡ length front =
      omega (arith, length-written s out h, length-append out first) in
    let begun = constructed_begin-appended id s out h (omega arith) in
    (
      closed t front placeholder content refl whole,
      rw (begun, ran, marker) (constructed_end-closed t front placeholder content refl whole short),
      rw (append_assoc out first (encode_length (length content) ++ content)) at
          (Holds-closed t front placeholder content refl whole short),
      cap,
    )

mutual
  unfolding serialize_tree encode peak IsShort

  serialize_tree-run :
      (t : Tree) (s : Serializer) (out : List ℕ)
      → Holds s out
      → IsShort t
      → s.length + peak t ≤ s.capacity
      → Writes (serialize_tree t) s out (encode t)
  serialize_tree-run (leaf id xs) s out h short room = (
    appended s (encode (leaf id xs)),
    rw append-nil at (serialize_primitive-appended id xs [] s out h room),
    Holds-appended s out (encode (leaf id xs)) h room,
    refl,
  )
  serialize_tree-run (branch id ts) s out h short room =
      constructed-Writes id (serialize_trees ts) (encode_all ts) (peak_all ts) s out h short.0 room
        (λ t ws h1 enough. serialize_trees-run ts t ws h1 short.1 enough)

  serialize_trees-run :
      (ts : Trees) (s : Serializer) (out : List ℕ)
      → Holds s out
      → AreShort ts
      → s.length + peak_all ts ≤ s.capacity
      → Writes (serialize_trees ts) s out (encode_all ts)
  serialize_trees-run nil s out h short room = (s, refl, rw append-nil h, refl)
  serialize_trees-run (cons t ts) s out h short room =
      let (u, ran, h1, cap) = serialize_tree-run t s out h short.0 (omega arith) in
      let end : u.length ≡ s.length + length (encode t) = omega (
        arith,
        length-written s out h,
        length-written u (out ++ encode t) h1,
        length-append out (encode t),
      ) in
      let (v, ran', h2, cap') =
        serialize_trees-run ts u (out ++ encode t) h1 short.1 (omega arith) in
      (v, rw ran ran', rw append_assoc at h2, cap' ∙ cap)

-- The calls that write a tree succeed where there is room for `peak` bytes, and append the DER
-- encoding of the tree to what is written, where the capacity is below 2 ^ 63 and within the array.
-- The content of each constructed value is below 4 GiB.
pub serialize_tree-Writes :
    (t : Tree) (s : Serializer) (out : List ℕ)
    → Holds s out
    → IsShort t
    → s.length + peak t ≤ s.capacity
    → Writes (serialize_tree t) s out (encode t)
serialize_tree-Writes t s out h short room = serialize_tree-run t s out h short room

pub serialize_trees-Writes :
    (ts : Trees) (s : Serializer) (out : List ℕ)
    → Holds s out
    → AreShort ts
    → s.length + peak_all ts ≤ s.capacity
    → Writes (serialize_trees ts) s out (encode_all ts)
serialize_trees-Writes ts s out h short room = serialize_trees-run ts s out h short room
