-- ===== src/Serializer.antt =====
-- Parser/src/asn1_serializer.c: the DER serializer over the caller's buffer.
pub mod Writes
pub mod Constructed
pub mod Closing
pub mod TreeRun
pub mod Refusals
use asn.Base.{
  ℕ, zero, suc, ◌+◌, ◌-◌, Bool, true, false, List, [], ◌∷◌, length, store, run_at, copy_to, ltb,
  leb, if◌then◌else◌, add_size, sub_size, Outcome, done, failed, return, access, bind, ◌>>=◌, ◌>>◌,
}
use asn.Error.{Error, Op, asn1_error, buffer_too_small}
use asn.Identifier.{Identifier}
use asn.Buffer.{Pointer}
use asn.Encoding.{encode_identifier, encode_length}

-- asn1_serializer_t. `buffer` is the caller's array.
pub record Serializer : Type 0 where
  pub buffer : List ℕ
  pub length : ℕ
  pub capacity : ℕ

-- asn1_serializer_init()
abbrev pub serializer_init : List ℕ → ℕ → Serializer
serializer_init buffer capacity = record { buffer = buffer; length = 0; capacity = capacity }

-- reserve(); the sum on `size_t` wraps
unfoldable pub reserve : ℕ → Op Serializer (Unit {0})
reserve n s =
    if ltb s.capacity (add_size s.length n)
    then failed (asn1_error buffer_too_small "Output buffer too small" s.length) s
    else done tt s

-- write_bytes() behind reserve(): `memcpy(s->buffer + s->length, data, len)`
unfoldable pub append_bytes : Pointer → ℕ → Op Serializer (Unit {0})
append_bytes bytes len s =
    (do
      run ← access (run_at bytes 0 len)
      buffer ← access (copy_to s.buffer s.length run)
      λ _. done tt (record s { buffer = buffer; length = add_size s.length len }))
      s

-- `data` may be NULL where `len` is 0: a pointer with no bytes.
unfoldable pub write_bytes : Pointer → ℕ → Op Serializer (Unit {0})
unfolding reserve append_bytes
write_bytes bytes len = do reserve len; append_bytes bytes len

unfoldable pub write_identifier : Identifier → Bool → Op Serializer (Unit {0})
unfolding write_bytes
write_identifier id constructed =
    let buf = encode_identifier id constructed in write_bytes buf (length buf)

unfoldable pub write_length : ℕ → Op Serializer (Unit {0})
unfolding write_bytes
write_length n = let buf = encode_length n in write_bytes buf (length buf)

-- asn1_serialize_raw()
unfoldable pub serialize_raw : Pointer → ℕ → Op Serializer (Unit {0})
unfolding write_bytes
serialize_raw bytes len = write_bytes bytes len

-- asn1_serialize_primitive()
unfoldable pub serialize_primitive : Identifier → Pointer → ℕ → Op Serializer (Unit {0})
unfolding write_identifier write_length
serialize_primitive id bytes len = do
  write_identifier id false
  write_length len
  if ltb 0 len then write_bytes bytes len else return tt

-- `s->buffer[s->length++] = byte`
unfoldable pub put : ℕ → Op Serializer (Unit {0})
put byte s =
    (do
      buffer ← access (store s.buffer s.length byte)
      λ _. done tt (record s { buffer = buffer; length = add_size s.length 1 }))
      s

-- asn1_serialize_constructed_begin(): returns `*marker`.
unfoldable pub constructed_begin : Identifier → Op Serializer ℕ
unfolding write_identifier reserve put
constructed_begin id = do
  write_identifier id true
  λ s. (do reserve 5; put 0x84; put 0; put 0; put 0; put 0; return s.length) s

-- The shift of the content in asn1_serialize_constructed_end(), where the length takes `n` bytes:
-- `memmove(s->buffer + marker + n, s->buffer + content_start, content_length)`
unfoldable pub shift_content : ℕ → ℕ → ℕ → ℕ → Op Serializer (Unit {0})
shift_content marker n content_start content_length s =
    let saved = sub_size 5 n in
    let shifted = (do
      run ← access (run_at s.buffer content_start content_length)
      buffer ← access (copy_to s.buffer (add_size marker n) run)
      λ _. done tt (record s { buffer = buffer; length = sub_size s.length saved })) in
    if ltb 0 saved then shifted s else done tt s

-- asn1_serialize_constructed_end()
unfoldable pub constructed_end : ℕ → Op Serializer (Unit {0})
unfolding shift_content
constructed_end marker s =
    let content_start = add_size marker 5 in
    let content_length = sub_size s.length content_start in
    let length_buf = encode_length content_length in
    let length_bytes = length length_buf in
    let fixed = (do
      shift_content marker length_bytes content_start content_length
      λ t.
          (do
            buffer ← access (copy_to t.buffer marker length_buf)
            λ _. done tt (record t { buffer = buffer }))
            t) in
    if leb length_bytes 5
    then fixed s
    else failed (asn1_error buffer_too_small "Content too large to encode" s.length) s
