-- ===== src/Serializer/Refusals.antt =====
-- The serializer where the caller's buffer has no room: the call fails, and what was written stays.
use asn.Base.{
  ℕ, ◌+◌, ◌^◌, ◌≤◌, ◌<◌, ◌≡◌, refl, ap, ◌∙◌, true, false, List, [], ◌++◌, append_assoc, append-nil,
  length, length-append, ltb, lt→ltb, ltb→lt, if◌then◌else◌, add_size, arith, done, failed, bind,
  return, ◌>>=◌, ◌>>◌, Bool-cases, inl, inr,
}
use asn.Error.{Error, Op, asn1_error, buffer_too_small}
use asn.Identifier.{Identifier}
use asn.Encoding.{encode_identifier, encode_length}
use asn.Encoding.Octets.{length-encode_identifier_bounds, length-encode_length_bounds}
use asn.Serializer.{
  Serializer, reserve, write_bytes, serialize_primitive, constructed_begin, constructed_end, put,
}
use asn.Serializer.Writes.{Holds, appended, Holds-appended, write_whole, write_bytes_refused}
use asn.Serializer.Constructed.{length-written, placeholder, constructed_begin-appended}
use asn.Serializer.TreeRun.{
  serialize_tree, serialize_trees, peak, peak_all, IsShort, AreShort, serialize_tree-Writes,
}
use asn.Tree.{Tree, Trees, leaf, branch, nil, cons, encode}

-- The call fails for want of room; of what it was to write a part may stand behind `out`.
abbrev pub Refuses : {A : Type 0} → Op Serializer A → Serializer → List ℕ → Type 0
Refuses m s out =
    (e : Error) × (t : Serializer) × (part : List ℕ) × (m s ≡ failed e t)
    × (e.code ≡ buffer_too_small)
    × Holds t (out ++ part)

-- A part that fails, alone or behind a part that succeeds.
Refuses-bind :
    {A B : Type 0} (m : Op Serializer A) (f : A → Op Serializer B) (s : Serializer) (out : List ℕ)
    → Refuses m s out
    → Refuses (m >>= f) s out
Refuses-bind m f s out (e, t, part, ran, code, h) = (e, t, part, ap (λ r. bind r f) ran, code, h)

Refuses-behind :
    {A B : Type 0} (m : Op Serializer A) (f : A → Op Serializer B) (s t : Serializer) (a : A)
    (out xs : List ℕ)
    → m s ≡ done a t
    → Refuses (f a) t (out ++ xs)
    → Refuses (m >>= f) s out
Refuses-behind m f s t a out xs ran (e, u, part, failing, code, h) =
    (e, u, xs ++ part, ap (λ r. bind r f) ran ∙ failing, code, rw append_assoc at h)

write-Refuses :
    (xs : List ℕ) (n : ℕ) (s : Serializer) (out : List ℕ)
    → Holds s out
    → n < 2 ^ 63
    → s.capacity < s.length + n
    → Refuses (write_bytes xs n) s out
write-Refuses xs n s out h small full =
    (_, s, [], write_bytes_refused xs n s h small full, refl, rw append-nil h)

-- The last write of asn1_serialize_primitive().
content-Refuses :
    (xs : List ℕ) (s : Serializer) (out : List ℕ)
    → Holds s out
    → length xs < 2 ^ 63
    → s.capacity < s.length + length xs
    → s.length ≤ s.capacity
    → Refuses (if ltb 0 (length xs) then write_bytes xs (length xs) else return tt) s out
content-Refuses xs s out h small full room =
    rw (lt→ltb 0 (length xs) (omega arith)) (write-Refuses xs (length xs) s out h small full)

pub serialize_primitive-Refuses :
    (id : Identifier) (xs : List ℕ) (s : Serializer) (out : List ℕ)
    → Holds s out
    → length xs < 2 ^ 63
    → s.capacity < s.length + length (encode (leaf id xs))
    → Refuses (serialize_primitive id xs (length xs)) s out
unfolding serialize_primitive encode
serialize_primitive-Refuses id xs s out h small full =
    let first = encode_identifier id false in
    let second = encode_length (length xs) in
    let s1 = appended s first in
    let s2 = appended s1 second in
    let few = length-encode_identifier_bounds id false in
    let few' = length-encode_length_bounds (length xs) in
    let whole : length (first ++ (second ++ xs)) ≡ length first + length second + length xs =
      omega (arith, length-append first (second ++ xs), length-append second xs) in
    let content : Op Serializer (Unit {0}) =
      if ltb 0 (length xs) then write_bytes xs (length xs) else return tt in
    let rest : Op Serializer (Unit {0}) = write_bytes second (length second) >> content in
    elim (Bool-cases (ltb s.capacity (s.length + length first)))
      as (λ _. Refuses (write_bytes first (length first) >> rest) s out) [
        | inl full1 ↦
            Refuses-bind (write_bytes first (length first)) (λ _. rest) s out
              (write-Refuses first (length first) s out h (omega (arith, few)) (ltb→lt _ _ full1))
        | inr fits1 ↦
            let room1 : s.length + length first ≤ s.capacity = ground arith in
            let h1 = Holds-appended s out first h room1 in
            Refuses-behind (write_bytes first (length first)) (λ _. rest) s s1 tt out first
              (write_whole first s h room1)
              (elim (Bool-cases (ltb s.capacity (s.length + length first + length second)))
                as (λ _. Refuses rest s1 (out ++ first)) [
                  | inl full2 ↦
                      Refuses-bind (write_bytes second (length second)) (λ _. content) s1
                        (out ++ first)
                        (write-Refuses second (length second) s1 (out ++ first) h1
                          (omega (arith, few')) (ltb→lt _ _ full2))
                  | inr fits2 ↦
                      let room2 : s.length + length first + length second ≤ s.capacity =
                        ground arith in
                      let h2 = Holds-appended s1 (out ++ first) second h1 room2 in
                      Refuses-behind (write_bytes second (length second)) (λ _. content) s1 s2 tt
                        (out ++ first) second (write_whole second s1 h1 room2)
                        (content-Refuses xs s2 ((out ++ first) ++ second) h2 small
                          (omega (arith, whole, full)) room2)
                ])
      ]

-- The test of asn1_serialize_constructed_begin() for its five bytes.
reserve-Refuses :
    (m : Op Serializer ℕ) (s : Serializer) (out : List ℕ)
    → Holds s out
    → s.capacity < s.length + 5
    → Refuses (do reserve 5; m) s out
unfolding reserve
reserve-Refuses m s out h full =
    let sum : add_size s.length 5 ≡ s.length + 5 = omega arith in
    (
      asn1_error buffer_too_small "Output buffer too small" s.length,
      s,
      [],
      rw (sum, lt→ltb s.capacity (s.length + 5) full),
      refl,
      rw append-nil h,
    )

-- asn1_serialize_constructed_begin(), where the identifier or the five bytes behind it do not fit.
constructed_begin-Refuses :
    (id : Identifier) (s : Serializer) (out : List ℕ)
    → Holds s out
    → s.capacity < s.length + (length (encode_identifier id true) + 5)
    → Refuses (constructed_begin id) s out
unfolding constructed_begin
constructed_begin-Refuses id s out h full =
    let first = encode_identifier id true in
    let few = length-encode_identifier_bounds id true in
    let rest : Op Serializer ℕ =
      λ t. (do reserve 5; put 0x84; put 0; put 0; put 0; put 0; return t.length) t in
    elim (Bool-cases (ltb s.capacity (s.length + length first)))
      as (λ _. Refuses (write_bytes first (length first) >>= (λ _. rest)) s out) [
        | inl full1 ↦
            Refuses-bind (write_bytes first (length first)) (λ _. rest) s out
              (write-Refuses first (length first) s out h (omega (arith, few)) (ltb→lt _ _ full1))
        | inr fits1 ↦
            let room1 : s.length + length first ≤ s.capacity = ground arith in
            let s1 = appended s first in
            Refuses-behind (write_bytes first (length first)) (λ _. rest) s s1 tt out first
              (write_whole first s h room1)
              (reserve-Refuses (do put 0x84; put 0; put 0; put 0; put 0; return s1.length) s1
                (out ++ first) (Holds-appended s out first h room1) (omega arith))
      ]

leaf-size : (id : Identifier) (xs : List ℕ) → length xs ≤ length (encode (leaf id xs))
unfolding encode
leaf-size id xs = omega (
  arith,
  length-append (encode_identifier id false) (encode_length (length xs) ++ xs),
  length-append (encode_length (length xs)) xs,
)

mutual
  unfolding serialize_tree peak IsShort encode

  tree-Refuses :
      (t : Tree) (s : Serializer) (out : List ℕ)
      → Holds s out
      → IsShort t
      → peak t < 2 ^ 63
      → s.capacity < s.length + peak t
      → Refuses (serialize_tree t) s out
  tree-Refuses (leaf id xs) s out h short small full =
      serialize_primitive-Refuses id xs s out h (omega (arith, leaf-size id xs)) full
  tree-Refuses (branch id ts) s out h short small full =
      let first = encode_identifier id true in
      let opening = first ++ placeholder in
      let size = length-append first placeholder in
      let rest : ℕ → Op Serializer (Unit {0}) =
        λ marker. serialize_trees ts >> constructed_end marker in
      elim (Bool-cases (ltb s.capacity (s.length + (length first + 5))))
        as (λ _. Refuses (constructed_begin id >>= rest) s out) [
          | inl full1 ↦
              Refuses-bind (constructed_begin id) rest s out
                (constructed_begin-Refuses id s out h (ltb→lt _ _ full1))
          | inr fits1 ↦
              let room : s.length + (length first + 5) ≤ s.capacity = ground arith in
              let marker = s.length + length first in
              let s1 = appended s opening in
              Refuses-behind (constructed_begin id) rest s s1 marker out opening
                (constructed_begin-appended id s out h room)
                (Refuses-bind (serialize_trees ts) (λ _. constructed_end marker) s1 (out ++ opening)
                  (trees-Refuses ts s1 (out ++ opening)
                    (Holds-appended s out opening h (omega arith)) short.1 (omega arith)
                    (omega arith)))
        ]

  trees-Refuses :
      (ts : Trees) (s : Serializer) (out : List ℕ)
      → Holds s out
      → AreShort ts
      → peak_all ts < 2 ^ 63
      → s.capacity < s.length + peak_all ts
      → Refuses (serialize_trees ts) s out
  trees-Refuses nil s out h short small full = absurd (omega (arith, h.fits))
  trees-Refuses (cons t ts) s out h short small full =
      let rest : Unit {0} → Op Serializer (Unit {0}) = λ _. serialize_trees ts in
      elim (Bool-cases (ltb s.capacity (s.length + peak t)))
        as (λ _. Refuses (serialize_tree t >>= rest) s out) [
          | inl full1 ↦
              Refuses-bind (serialize_tree t) rest s out
                (tree-Refuses t s out h short.0 (omega arith) (ltb→lt _ _ full1))
          | inr fits1 ↦
              let room : s.length + peak t ≤ s.capacity = ground arith in
              let (u, ran, h1, cap) = serialize_tree-Writes t s out h short.0 room in
              let end : u.length ≡ s.length + length (encode t) = omega (
                arith,
                length-written s out h,
                length-written u (out ++ encode t) h1,
                length-append out (encode t),
              ) in
              Refuses-behind (serialize_tree t) rest s u tt out (encode t) ran
                (trees-Refuses ts u (out ++ encode t) h1 short.1 (omega arith) (omega arith))
        ]

-- The calls that write a tree fail for want of room where the capacity leaves fewer bytes than
-- `peak` of the tree, and no byte that was written before is lost, where `peak` of the tree and
-- the capacity are below 2 ^ 63, the capacity is within the array and the content of each
-- constructed value is below 4 GiB.
pub serialize_tree-Refuses :
    (t : Tree) (s : Serializer) (out : List ℕ)
    → Holds s out
    → IsShort t
    → peak t < 2 ^ 63
    → s.capacity < s.length + peak t
    → Refuses (serialize_tree t) s out
serialize_tree-Refuses = tree-Refuses
