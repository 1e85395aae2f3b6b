-- ===== src/Error.antt =====
-- Parser/include/asn1/asn1_error.h: error codes and the error structure, and the
-- names of the codes (asn1_parser.c).
use asn.Base.{ℕ, String, Bool, true, false, Option, none, some, Outcome, size_mod, ◌-◌}

pub data ErrorCode : Type 0 where
  ok : ErrorCode
  truncated_field : ErrorCode
  invalid_object : ErrorCode
  unexpected_field_type : ErrorCode
  unsupported_length : ErrorCode
  invalid_integer_encoding : ErrorCode
  excessive_depth : ErrorCode
  buffer_too_small : ErrorCode
  invalid_oid : ErrorCode
  capacity_exceeded : ErrorCode
  invalid_boolean : ErrorCode
  trailing_data : ErrorCode

-- `message` may be NULL.
pub record Error : Type 0 where
  pub code : ErrorCode
  pub message : Option String
  pub offset : ℕ

-- asn1_ok(); `(size_t)-1` is the greatest `size_t`.
pub asn1_ok : Error
asn1_ok = record { code = ok; message = none; offset = size_mod - 1 }

-- asn1_error()
abbrev pub asn1_error : ErrorCode → String → ℕ → Error
asn1_error c m o = record { code = c; message = some m; offset = o }

pub is_ok_code : ErrorCode → Bool
is_ok_code ok = true
is_ok_code _ = false

-- asn1_is_ok()
pub asn1_is_ok : Error → Bool
unfolding is_ok_code
asn1_is_ok e = is_ok_code e.code

-- An operation of the library on the state `S`.
abbrev pub Op : Type 0 → Type 0 → Type 0
Op S A = S → Outcome Error S A

-- asn1_error_code_name(). The `default:` case, for a number that is no code, has no counterpart.
pub error_code_name : ErrorCode → String
error_code_name ok = "OK"
error_code_name truncated_field = "TRUNCATED_FIELD"
error_code_name invalid_object = "INVALID_OBJECT"
error_code_name unexpected_field_type = "UNEXPECTED_FIELD_TYPE"
error_code_name unsupported_length = "UNSUPPORTED_LENGTH"
error_code_name invalid_integer_encoding = "INVALID_INTEGER_ENCODING"
error_code_name excessive_depth = "EXCESSIVE_DEPTH"
error_code_name buffer_too_small = "BUFFER_TOO_SMALL"
error_code_name invalid_oid = "INVALID_OID"
error_code_name capacity_exceeded = "CAPACITY_EXCEEDED"
error_code_name invalid_boolean = "INVALID_BOOLEAN"
error_code_name trailing_data = "TRAILING_DATA"
