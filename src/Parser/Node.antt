-- ===== src/Parser/Node.antt =====
-- asn1_parser.c: nodes and asn1_parse(), over the types of include/asn1/asn1.h.
use asn.Base.{
  ℕ, zero, suc, ◌+◌, ◌-◌, Bool, true, false, not, ◌&&◌, Option, none, some, List, modify, store,
  ltb, leb, ◌==◌, if◌then◌else◌, add_size, sub_size, Outcome, done, failed, fault, out_of_fuel,
  return, access, bind, ◌>>=◌, ◌>>◌,
}
use asn.Error.{
  Error, Op, asn1_error, truncated_field, invalid_object, unsupported_length, excessive_depth,
  capacity_exceeded, trailing_data,
}
use asn.Identifier.{Identifier}
use asn.Buffer.{
  Buffer, Pointer, buffer_init, buffer_remaining, buffer_current, peek_byte, skip, read_bytes, fail,
}
use asn.Parser.Header.{EncodingRules, Length, definite, indefinite, parse_identifier, parse_length}

-- ASN1_MAX_DEPTH
abbrev pub max_depth : ℕ
max_depth = 50

pub data ContentType : Type 0 where
  primitive constructed : ContentType

-- `data_bytes` is `none` for NULL.
pub record Node : Type 0 where
  pub identifier : Identifier
  pub content_type : ContentType
  pub encoded_bytes : Pointer
  pub encoded_length : ℕ
  pub data_bytes : Option Pointer
  pub data_length : ℕ
  pub depth : ℕ
  pub subtree_size : ℕ

-- `nodes` is the caller's array, whose cells from `count` on hold anything.
pub record ParseResult : Type 0 where
  pub nodes : List Node
  pub count : ℕ
  pub capacity : ℕ

-- asn1_parse_result_init()
abbrev pub parse_result_init : List Node → ℕ → ParseResult
parse_result_init nodes capacity = record { nodes = nodes; count = 0; capacity = capacity }

-- What parse_node() works on.
pub record ParseState : Type 0 where
  pub buf : Buffer
  pub result : ParseResult

-- An operation on a part of the state.
module _ {A : Type 0} where
  abbrev pub into_buf : ParseState → Outcome Error Buffer A → Outcome Error ParseState A
  into_buf s (done a b) = done a (record s { buf = b })
  into_buf s (failed e b) = failed e (record s { buf = b })
  into_buf s fault = fault
  into_buf s out_of_fuel = out_of_fuel

  abbrev pub on_buf : Op Buffer A → Op ParseState A
  on_buf m s = into_buf s (m s.buf)

  abbrev pub into_result : ParseState → Outcome Error ParseResult A → Outcome Error ParseState A
  into_result s (done a r) = done a (record s { result = r })
  into_result s (failed e r) = failed e (record s { result = r })
  into_result s fault = fault
  into_result s out_of_fuel = out_of_fuel

  abbrev pub on_result : Op ParseResult A → Op ParseState A
  on_result m s = into_result s (m s.result)

unfoldable pub add_node : Node → Op ParseResult (Unit {0})
add_node node r =
    if leb r.capacity r.count
    then failed (asn1_error capacity_exceeded "Node array capacity exceeded" 0) r
    else (do
      nodes ← access (store r.nodes r.count node)
      λ _. done tt (record r { nodes = nodes; count = r.count + 1 }))
        r

-- A round of the loops below adds a node, so one round for each free cell and one more are enough.
abbrev pub rounds : ParseState → ℕ
rounds s = suc (s.result.capacity - s.result.count)

unfoldable pub check_end : ℕ → Op Buffer (Unit {0})
check_end end_offset b =
    if b.offset == end_offset then done tt b else fail invalid_object "Content length mismatch" b

-- Whether the byte behind the next one is 0, on the copy `temp` of the reader.
unfoldable pub second_is_zero : Op Buffer Bool
unfolding skip peek_byte
second_is_zero b =
    bind ((do skip 1; peek_byte) b)
      λ byte2 _. done (elim byte2 [ none ↦ false | some x ↦ x == 0 ]) b

-- Whether the reader stands at the end-of-contents octets.
unfoldable pub at_end_marker : Op Buffer Bool
unfolding second_is_zero
at_end_marker = do
  byte1 ← peek_byte
  elim byte1 [
    | none ↦ fail truncated_field "Truncated indefinite content"
    | some x ↦ if x == 0 then second_is_zero else return false
  ]

-- The loops call parse_node() one level down, which is the argument `child`.
module _ (child : Op ParseState (Unit {0})) where
  unfoldable pub definite_loop : ℕ → ℕ → Op ParseState (Unit {0})
  definite_loop zero end_offset s = out_of_fuel
  definite_loop (suc fuel) end_offset s =
      let next = bind (child s) (λ _. definite_loop fuel end_offset) in
      if ltb s.buf.offset end_offset then next else done tt s

  unfoldable pub parse_definite_children : ℕ → Op ParseState (Unit {0})
  unfolding definite_loop check_end
  parse_definite_children content_length s =
      let end_offset = add_size s.buf.offset content_length in
      (do definite_loop (rounds s) end_offset; on_buf (check_end end_offset)) s

  unfoldable pub indefinite_loop : ℕ → Op ParseState (Unit {0})
  unfolding at_end_marker
  indefinite_loop zero s = out_of_fuel
  indefinite_loop (suc fuel) s =
      let next = λ (t : ParseState). bind (child t) (λ _. indefinite_loop fuel) in
      if leb 2 (buffer_remaining s.buf)
      then bind (on_buf at_end_marker s)
          (λ marker t. if marker then on_buf (do skip 2; return tt) t else next t)
      else on_buf (fail truncated_field "Missing end-of-contents marker") s

  unfoldable pub parse_indefinite_children : Op ParseState (Unit {0})
  unfolding indefinite_loop
  parse_indefinite_children s = indefinite_loop (rounds s) s

  unfoldable pub parse_children : Length → Op ParseState (Unit {0})
  unfolding parse_definite_children parse_indefinite_children
  parse_children (definite n) s =
      if ltb (buffer_remaining s.buf) n
      then on_buf (fail truncated_field "Truncated constructed content") s
      else parse_definite_children n s
  parse_children indefinite s = parse_indefinite_children s

-- `result->nodes[index]` gets its subtree size and encoded length; the differences are unsigned.
unfoldable pub finish_node : ℕ → ℕ → Op ParseState (Unit {0})
finish_node index start_offset s =
    let size = sub_size s.result.count index in
    let len = sub_size s.buf.offset start_offset in
    (do
      nodes ← access (
          modify s.result.nodes index (λ n. record n { subtree_size = size; encoded_length = len }))
      λ t. done tt (record t { result = record t.result { nodes = nodes } }))
      s

-- The header of a node and where it starts: the locals of parse_node().
pub record Header : Type 0 where
  pub identifier : Identifier
  pub constructed : Bool
  pub length : Length
  pub start_offset : ℕ
  pub start_ptr : Pointer
  pub depth : ℕ

-- `encoded_length` is indeterminate in C until finish_node(); it is 0 here.
abbrev pub constructed_node : Header → Node
constructed_node h = record {
  identifier = h.identifier;
  content_type = constructed;
  encoded_bytes = h.start_ptr;
  encoded_length = 0;
  data_bytes = none;
  data_length = 0;
  depth = h.depth;
  subtree_size = 1;
}

abbrev pub primitive_node : Header → Pointer → ℕ → ℕ → Node
primitive_node h ptr n encoded_length = record {
  identifier = h.identifier;
  content_type = primitive;
  encoded_bytes = h.start_ptr;
  encoded_length = encoded_length;
  data_bytes = some ptr;
  data_length = n;
  depth = h.depth;
  subtree_size = 1;
}

unfoldable pub parse_primitive : Header → Length → Op ParseState (Unit {0})
unfolding add_node read_bytes
parse_primitive h (definite n) = do
  data_ptr ← on_buf (read_bytes n)
  elim data_ptr [
    | none ↦ on_buf (fail truncated_field "Truncated primitive content")
    | some ptr ↦
        λ s. on_result (add_node (primitive_node h ptr n (sub_size s.buf.offset h.start_offset))) s
  ]
parse_primitive h indefinite = on_buf (fail invalid_object "Primitive with indefinite length")

unfoldable pub parse_constructed : Op ParseState (Unit {0}) → Header → Op ParseState (Unit {0})
unfolding add_node parse_children finish_node
parse_constructed child h s =
    (do
      on_result (add_node (constructed_node h))
      parse_children child h.length
      finish_node s.result.count h.start_offset)
      s

abbrev pub is_indefinite : Length → Bool
is_indefinite (definite n) = false
is_indefinite indefinite = true

unfoldable pub parse_content : Op ParseState (Unit {0}) → Header → Op ParseState (Unit {0})
unfolding parse_primitive parse_constructed
parse_content child h =
    if is_indefinite h.length && not h.constructed
    then on_buf (fail unsupported_length "Indefinite length requires constructed encoding")
    else if h.constructed
    then parse_constructed child h
    else parse_primitive h h.length

-- parse_node() below its depth test
unfoldable pub parse_tlv : Op ParseState (Unit {0}) → EncodingRules → ℕ → Op ParseState (Unit {0})
unfolding parse_content parse_identifier parse_length
parse_tlv child rules depth s =
    (do
      (identifier, is_constructed) ← on_buf parse_identifier
      len ← on_buf (parse_length rules)
      parse_content child (record {
        identifier = identifier;
        constructed = is_constructed;
        length = len;
        start_offset = s.buf.offset;
        start_ptr = buffer_current s.buf;
        depth = depth;
      }))
      s

-- The recursion goes down to `max_depth + 1`, where it fails, so `levels` starts at `max_depth`.
unfoldable pub parse_node : ℕ → EncodingRules → ℕ → Op ParseState (Unit {0})
unfolding parse_tlv
parse_node zero rules depth s =
    if ltb max_depth depth
    then on_buf (fail excessive_depth "Maximum parsing depth exceeded") s
    else out_of_fuel
parse_node (suc levels) rules depth s =
    let body = parse_tlv (parse_node levels rules (depth + 1)) rules depth s in
    if ltb max_depth depth
    then on_buf (fail excessive_depth "Maximum parsing depth exceeded") s
    else body

-- The end of asn1_parse(): nothing may follow the root.
unfoldable pub check_trailing : Op Buffer (Unit {0})
check_trailing b =
    if ltb 0 (buffer_remaining b) then fail trailing_data "Trailing unparsed data" b else done tt b

-- The result that the caller is left with.
abbrev pub result_of : {A : Type 0} → Outcome Error ParseState A → Outcome Error ParseResult A
result_of (done a s) = done a s.result
result_of (failed e s) = failed e s.result
result_of fault = fault
result_of out_of_fuel = out_of_fuel

-- asn1_parse(). `input` is `none` for NULL, and `null` says that `result` or its array is NULL.
unfoldable pub asn1_parse : Option Pointer → ℕ → EncodingRules → Bool → Op ParseResult (Unit {0})
unfolding parse_node check_trailing
asn1_parse none len rules null r = failed (asn1_error invalid_object "NULL argument" 0) r
asn1_parse (some input) len rules true r = failed (asn1_error invalid_object "NULL argument" 0) r
asn1_parse (some input) len rules false r =
    if len == 0
    then failed (asn1_error truncated_field "Empty input" 0) r
    else result_of (
        (do parse_node max_depth rules 1; on_buf check_trailing)
          (record { buf = buffer_init input len; result = record r { count = 0 } }))
