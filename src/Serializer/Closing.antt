-- ===== src/Serializer/Closing.antt =====
-- asn1_serialize_constructed_end(): the length takes the place of the five bytes kept for it.
use asn.Base.{
  ℕ, ◌+◌, ◌-◌, ◌^◌, ◌≤◌, ◌<◌, ◌≡◌, refl, sym, ap, ◌∙◌, List, ◌++◌, append_assoc, length,
  length-append, take, splice, splice-splice_before, splice_same, take-front, take-drop_run,
  length-splice, take-splice, ltb, add_size, sub_size, arith, done, failed, le→leb, lt→leb,
  Bool-cases, inl, inr,
}
use asn.Error.{asn1_error, buffer_too_small}
use asn.Encoding.{encode_length}
use asn.Encoding.Octets.{length-encode_length_small, length-encode_length_large}
use asn.Serializer.{Serializer, shift_content, constructed_end}
use asn.Serializer.Writes.{Holds}
use asn.Serializer.Constructed.{length-written}

module _ (s : Serializer) (front kept content : List ℕ) (five : length kept ≡ 5)
    (h : Holds s (front ++ (kept ++ content))) where
  abbrev start : ℕ
  start = length front

  abbrev size : ℕ
  size = length content

  whole_length : s.length ≡ start + 5 + size
  whole_length = omega (
    arith,
    length-written s (front ++ (kept ++ content)) h,
    length-append front (kept ++ content),
    length-append kept content,
  )

  abbrev before : List ℕ
  before = front ++ kept

  length-before : start + 5 ≡ length before
  length-before = omega (arith, length-append front kept)

  written_before : take s.length s.buffer ≡ before ++ content
  written_before = h.written ∙ sym (append_assoc front kept content)

  -- The content right behind a length of `n` bytes.
  abbrev shifted : ℕ → Serializer
  shifted n = record s { buffer = splice s.buffer (start + n) content; length = start + n + size }

  shift_content-shifted :
      (n : ℕ) → n ≤ 5 → shift_content start n (start + 5) size s ≡ done tt (shifted n)
  unfolding shift_content
  shift_content-shifted n few =
      let saved : sub_size 5 n ≡ 5 - n = omega arith in
      elim (Bool-cases (ltb 0 (5 - n))) [
        | inl some_saved ↦
            let to : add_size start n ≡ start + n = omega (arith, whole_length) in
            let len : sub_size s.length (5 - n) ≡ start + n + size = omega (arith, whole_length) in
            rw (
              saved,
              some_saved,
              le→leb (start + 5 + size) (length s.buffer) (omega (arith, whole_length)),
              take-drop_run s.buffer s.length before content (start + 5) size written_before
                  length-before whole_length,
              to,
              le→leb (start + n + size) (length s.buffer) (omega (arith, whole_length)),
              len,
            )
        | inr none_saved ↦
            let all : n ≡ 5 = ground arith in
            rw (
              saved,
              none_saved,
              all,
              splice_same s.buffer s.length before content (start + 5) written_before length-before,
              ← whole_length,
            )
      ]

  abbrev digits : List ℕ
  digits = encode_length size

  -- The state when the constructed value is complete.
  abbrev pub closed : Serializer
  closed = record s {
    buffer = splice s.buffer start (digits ++ content);
    length = start + length (digits ++ content);
  }

  content_length : sub_size s.length (add_size start 5) ≡ size
  content_length = omega (arith, whole_length)

  pub constructed_end-closed : size < 2 ^ 32 → constructed_end start s ≡ done tt closed
  unfolding constructed_end
  constructed_end-closed short =
      let few : length digits ≤ 5 = length-encode_length_small size short in
      let start_5 : add_size start 5 ≡ start + 5 = omega (arith, whole_length) in
      let end : start + length digits + size ≡ start + length (digits ++ content) =
        omega (arith, length-append digits content) in
      let room : start + length digits ≤ length s.buffer = omega (arith, whole_length) in
      rw (
        content_length,
        le→leb (length digits) 5 few,
        start_5,
        shift_content-shifted (length digits) few,
        length-splice s.buffer (start + length digits) content,
        le→leb (start + length digits) (length s.buffer) room,
        splice-splice_before s.buffer start digits content (start + length digits) refl,
        end,
      )

  pub Holds-closed : size < 2 ^ 32 → Holds closed (front ++ (digits ++ content))
  Holds-closed short =
      let few : length digits ≤ 5 = length-encode_length_small size short in
      let end = length-append digits content in
      record {
        written =
            take-splice s.buffer start (digits ++ content) (start + length (digits ++ content)) refl
              (omega (arith, whole_length))
            ∙ ap (λ l. l ++ (digits ++ content))
                (take-front s.buffer s.length front (kept ++ content) start h.written refl);
        fits = omega (arith, whole_length);
        writable = omega (arith, length-splice s.buffer start (digits ++ content));
        small = h.small;
      }

  -- A content of 4 GiB and more is refused, and nothing changes.
  pub constructed_end_refused :
      2 ^ 32 ≤ size
      → constructed_end start s
        ≡ failed (asn1_error buffer_too_small "Content too large to encode" s.length) s
  unfolding constructed_end
  constructed_end_refused large =
      rw (content_length, lt→leb (length digits) 5 (length-encode_length_large size large))
