-- ===== src/Serializer/Constructed.antt =====
-- asn1_serialize_constructed_begin() and asn1_serialize_constructed_end().
use asn.Base.{
  ℕ, ◌+◌, ◌^◌, ◌≤◌, ◌<◌, ◌≡◌, sym, ap, ◌∙◌, true, List, [], ◌∷◌, ◌++◌, length, length-take,
  store-splice, length-splice, add_size, arith, return, ◌>>◌, done, le→ltb,
}
use asn.Identifier.{Identifier}
use asn.Encoding.{encode_identifier}
use asn.Serializer.{Serializer, put, constructed_begin}
use asn.Serializer.Writes.{Holds, appended, appended-appended, write_whole}

put-appended :
    (x : ℕ) (s : Serializer)
    → s.length < s.capacity
    → s.capacity ≤ length s.buffer
    → s.capacity < 2 ^ 63
    → put x s ≡ done tt (appended s (x ∷ []))
unfolding put
put-appended x s room writable small =
    let sum : add_size s.length 1 ≡ s.length + 1 = omega arith in
    rw (store-splice s.buffer s.length x (omega arith), sum)

-- The five bytes that stand for the length until the end is reached.
abbrev pub placeholder : List ℕ
placeholder = 0x84 ∷ 0 ∷ 0 ∷ 0 ∷ 0 ∷ []

pub length-written : (s : Serializer) (out : List ℕ) → Holds s out → s.length ≡ length out
length-written s out h = sym (length-take s.length s.buffer (omega arith)) ∙ ap length h.written

put-placeholder :
    (m : ℕ) (s : Serializer)
    → s.length + 5 ≤ s.capacity
    → s.capacity ≤ length s.buffer
    → s.capacity < 2 ^ 63
    → (do put 0x84; put 0; put 0; put 0; put 0; return m) s ≡ done m (appended s placeholder)
put-placeholder m s room writable small =
    let s1 = appended s (0x84 ∷ []) in
    let s2 = appended s1 (0 ∷ []) in
    let s3 = appended s2 (0 ∷ []) in
    let s4 = appended s3 (0 ∷ []) in
    let l1 = length-splice s.buffer s.length (0x84 ∷ []) in
    let l2 = length-splice s1.buffer s1.length (0 ∷ []) in
    let l3 = length-splice s2.buffer s2.length (0 ∷ []) in
    let l4 = length-splice s3.buffer s3.length (0 ∷ []) in
    rw
      (
        put-appended 0x84 s (omega arith) writable small,
        put-appended 0 s1 (omega arith) (omega arith) small,
        put-appended 0 s2 (omega arith) (omega arith) small,
        put-appended 0 s3 (omega arith) (omega arith) small,
        put-appended 0 s4 (omega arith) (omega arith) small,
      )
      (ap (done m) (
        ap (λ t. appended (appended (appended t (0 ∷ [])) (0 ∷ [])) (0 ∷ []))
          (appended-appended s (0x84 ∷ []) (0 ∷ []))
        ∙ ap (λ t. appended (appended t (0 ∷ [])) (0 ∷ []))
            (appended-appended s (0x84 ∷ 0 ∷ []) (0 ∷ []))
        ∙ ap (λ t. appended t (0 ∷ [])) (appended-appended s (0x84 ∷ 0 ∷ 0 ∷ []) (0 ∷ []))
        ∙ appended-appended s (0x84 ∷ 0 ∷ 0 ∷ 0 ∷ []) (0 ∷ [])))

module _ (id : Identifier) (s : Serializer) (out : List ℕ) (h : Holds s out)
    (room : s.length + (length (encode_identifier id true) + 5) ≤ s.capacity) where
  -- The marker is behind the identifier, and the placeholder behind the marker.
  pub constructed_begin-appended :
      constructed_begin id s
      ≡ done
          (s.length + length (encode_identifier id true))
          (appended s (encode_identifier id true ++ placeholder))
  unfolding constructed_begin
  constructed_begin-appended =
      let first = encode_identifier id true in
      let t : Serializer = appended s first in
      let sum : add_size t.length 5 ≡ t.length + 5 = omega arith in
      rw
        (
          write_whole first s h (omega arith),
          sum,
          le→ltb s.capacity (t.length + 5) (omega arith),
          put-placeholder t.length t (omega arith)
              (omega (arith, length-splice s.buffer s.length first)) h.small,
        )
        (ap (done (s.length + length first)) (appended-appended s first placeholder))
