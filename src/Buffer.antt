-- ===== src/Buffer.antt =====
-- Parser/src/asn1_internal.h, the first part: the reader over the input bytes.
pub mod Reads
use asn.Base.{
  ℕ, ◌+◌, ◌-◌, ◌%◌, Bool, true, false, Option, none, some, List, get_elem?, drop, leb, ltb,
  if◌then◌else◌, add_size, sub_size, size_mod, done, failed, access, return, ◌>>=◌, String,
}
use asn.Error.{ErrorCode, Op, asn1_error}

-- `input` is the array at `data`, and `length` what the caller said its length is.
pub record Buffer : Type 0 where
  pub input : List ℕ
  pub length : ℕ
  pub offset : ℕ

-- A `const uint8_t *` into the input: the bytes from there to the end of the array.
abbrev pub Pointer : Type 0
Pointer = List ℕ

-- asn1_buffer_init()
abbrev pub buffer_init : List ℕ → ℕ → Buffer
buffer_init d n = record { input = d; length = n; offset = 0 }

-- asn1_buffer_remaining(), an unsigned subtraction
abbrev pub buffer_remaining : Buffer → ℕ
buffer_remaining b = sub_size b.length b.offset

-- asn1_buffer_current()
abbrev pub buffer_current : Buffer → Pointer
buffer_current b = drop b.offset b.input

-- asn1_buffer_read_byte(): `none` where it returns false
unfoldable pub read_byte : Op Buffer (Option ℕ)
read_byte b =
    if leb b.length b.offset
    then done none b
    else (do
      byte ← access (get_elem? b.input b.offset)
      λ _. done (some byte) (record b { offset = add_size b.offset 1 }))
        b

-- asn1_buffer_peek_byte()
unfoldable pub peek_byte : Op Buffer (Option ℕ)
peek_byte b =
    if leb b.length b.offset
    then done none b
    else (do byte ← access (get_elem? b.input b.offset); return (some byte)) b

-- asn1_buffer_skip(); the sum on `size_t` wraps
unfoldable pub skip : ℕ → Op Buffer Bool
skip count b =
    if ltb b.length (add_size b.offset count)
    then done false b
    else done true (record b { offset = add_size b.offset count })

-- asn1_buffer_read_bytes(); the sum on `size_t` wraps
unfoldable pub read_bytes : ℕ → Op Buffer (Option Pointer)
read_bytes count b =
    if ltb b.length (add_size b.offset count)
    then done none b
    else done (some (buffer_current b)) (record b { offset = add_size b.offset count })

-- `return asn1_error(code, message, buf->offset)`
abbrev pub fail : {A : Type 0} → ErrorCode → String → Op Buffer A
fail c m b = failed (asn1_error c m b.offset) b

-- `if (!asn1_buffer_read_byte(buf, &byte)) return asn1_error(code, message, buf->offset);`
unfoldable pub need_byte : ErrorCode → String → Op Buffer ℕ
unfolding read_byte
need_byte c m = do byte ← read_byte; elim byte [ none ↦ fail c m | some x ↦ return x ]
