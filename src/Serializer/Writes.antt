-- ===== src/Serializer/Writes.antt =====
-- What the serializer has written, and the writes that append to it.
use asn.Base.{
  ℕ, ◌+◌, ◌^◌, ◌≤◌, ◌<◌, ◌≡◌, refl, ap, ◌∙◌, false, List, [], ◌∷◌, ◌++◌, append-nil, length,
  length-append, take, splice, splice-splice, length-splice, take-splice, take-append, splice_empty,
  return, ltb, if◌then◌else◌, add_size, arith, done, failed, le→leb, le→ltb, lt→ltb,
}
use asn.Error.{asn1_error, buffer_too_small}
use asn.Identifier.{Identifier}
use asn.Buffer.{Pointer}
use asn.Encoding.{encode_identifier, encode_length}
use asn.Serializer.{Serializer, write_bytes, serialize_primitive}

-- The bytes `out` are written. No object is larger than 2 ^ 63 bytes, so no sum of two sizes wraps.
pub record Holds (s : Serializer) (out : List ℕ) : Type 0 where
  pub written : take s.length s.buffer ≡ out
  pub fits : s.length ≤ s.capacity
  pub writable : s.capacity ≤ length s.buffer
  pub small : s.capacity < 2 ^ 63

-- The state with `xs` behind what is written.
abbrev pub appended : Serializer → List ℕ → Serializer
appended s xs = record s { buffer = splice s.buffer s.length xs; length = s.length + length xs }

pub appended-appended :
    (s : Serializer) (xs ys : List ℕ) → appended (appended s xs) ys ≡ appended s (xs ++ ys)
appended-appended s xs ys =
    let end : s.length + length xs + length ys ≡ s.length + length (xs ++ ys) =
      omega (arith, length-append xs ys) in
    rw (end, splice-splice s.buffer s.length xs ys (s.length + length xs) refl)

pub Holds-appended :
    (s : Serializer) (out xs : List ℕ)
    → Holds s out
    → s.length + length xs ≤ s.capacity
    → Holds (appended s xs) (out ++ xs)
Holds-appended s out xs h room = record {
  written =
      take-splice s.buffer s.length xs (s.length + length xs) refl (omega arith)
      ∙ ap (λ l. l ++ xs) h.written;
  fits = room;
  writable = omega (arith, h.writable, length-splice s.buffer s.length xs);
  small = h.small;
}

-- A write where there is room, of the first bytes at a pointer.
pub write_bytes-appended :
    (xs ys : List ℕ) (s : Serializer) {out : List ℕ}
    → Holds s out
    → s.length + length xs ≤ s.capacity
    → write_bytes (xs ++ ys) (length xs) s ≡ done tt (appended s xs)
unfolding write_bytes
write_bytes-appended xs ys s h room =
    let sum : add_size s.length (length xs) ≡ s.length + length xs = omega arith in
    rw
      (
        sum,
        le→ltb s.capacity (s.length + length xs) room,
        le→leb (0 + length xs) (length (xs ++ ys)) (omega (arith, length-append xs ys)),
        take-append xs ys,
        le→leb (s.length + length xs) (length s.buffer) (omega arith),
      )
      (rw sum)

-- A write with no room is refused, and nothing changes.
pub write_bytes_refused :
    (bytes : Pointer) (n : ℕ) (s : Serializer) {out : List ℕ}
    → Holds s out
    → n < 2 ^ 63
    → s.capacity < s.length + n
    → write_bytes bytes n s
      ≡ failed (asn1_error buffer_too_small "Output buffer too small" s.length) s
unfolding write_bytes
write_bytes_refused bytes n s h small full =
    let sum : add_size s.length n ≡ s.length + n = omega arith in
    rw (sum, lt→ltb s.capacity (s.length + n) full)

-- A write of a whole buffer.
pub write_whole :
    (xs : List ℕ) (s : Serializer) {out : List ℕ}
    → Holds s out
    → s.length + length xs ≤ s.capacity
    → write_bytes xs (length xs) s ≡ done tt (appended s xs)
write_whole xs s h room = rw append-nil at (write_bytes-appended xs [] s h room)

-- The last write of asn1_serialize_primitive(), which is left out for no bytes.
pub write_content :
    (xs ys : List ℕ) (s : Serializer) {out : List ℕ}
    → Holds s out
    → s.length + length xs ≤ s.capacity
    → (if ltb 0 (length xs) then write_bytes (xs ++ ys) (length xs) else return tt) s
      ≡ done tt (appended s xs)
write_content [] ys s h room =
    let end : s.length + 0 ≡ s.length = omega arith in rw (end, splice_empty s.buffer s.length)
write_content (x ∷ xs) ys s h room =
    rw (lt→ltb 0 (length (x ∷ xs)) (omega arith)) (write_bytes-appended (x ∷ xs) ys s h room)

-- asn1_serialize_primitive() appends the tag, the length and the bytes, where there is room.
pub serialize_primitive-appended :
    (id : Identifier) (xs ys : List ℕ) (s : Serializer) (out : List ℕ)
    → Holds s out
    → s.length + length (encode_identifier id false ++ (encode_length (length xs) ++ xs))
      ≤ s.capacity
    → serialize_primitive id (xs ++ ys) (length xs) s
      ≡ done tt (appended s (encode_identifier id false ++ (encode_length (length xs) ++ xs)))
unfolding serialize_primitive
serialize_primitive-appended id xs ys s out h room =
    let first = encode_identifier id false in
    let second = encode_length (length xs) in
    let sizes : s.length + length first + length second + length xs ≤ s.capacity =
      omega (arith, length-append first (second ++ xs), length-append second xs) in
    let h1 = Holds-appended s out first h (omega arith) in
    let h2 = Holds-appended (appended s first) (out ++ first) second h1 (omega arith) in
    let e1 = write_whole first s h (omega arith) in
    let e2 = write_whole second (appended s first) h1 (omega arith) in
    rw (e1, e2)
      (write_content xs ys (appended (appended s first) second) h2 sizes
        ∙ ap (done tt) (
            appended-appended (appended s first) second xs
            ∙ appended-appended s first (second ++ xs)))
