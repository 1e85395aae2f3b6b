-- ===== src/Lib.antt =====
-- The C library for ASN.1, the directory Parser/ beside the C programs in Languages/: a parser of BER
-- and DER into a flat array of nodes, a DER serializer over the caller's buffer, and readers and
-- writers of the basic types. It allocates nothing: the caller owns the input, the node array and the
-- output buffer.
--
-- Parts, with the code that each models; the paths begin at the directory of the C programs:
--   Error: Parser/include/asn1/asn1_error.h
--     the errors; and asn1_error_code_name() of asn1_parser.c
--   Identifier: Parser/include/asn1/asn1_identifier.h
--     tags and their short form
--   Buffer: Parser/src/asn1_internal.h
--     its first part: the reader, asn1_buffer_*()
--   Encoding: Parser/src/asn1_internal.h
--     its second part: the bytes of identifiers and lengths
--   Parser: Parser/src/asn1_parser.c
--     Header has parse_identifier() and parse_length(), Node has
--     parse_node() with its two loops, add_node() and asn1_parse();
--     Shape says what a row of subtrees in the array of nodes is, and
--     Grammar what bytes a value is under BER and DER, with its nodes
--   Iterator: Parser/src/asn1_parser.c
--     asn1_children() and asn1_next_child(), with asn1_root_node()
--     of include/asn1/asn1.h
--   Serializer: Parser/src/asn1_serializer.c
--     asn1_serialize_primitive(), asn1_serialize_raw(), and
--     asn1_serialize_constructed_begin() with asn1_serialize_constructed_end()
--   Types: Parser/src/asn1_types.c
--     with include/asn1/asn1_types.h: BOOLEAN, NULL, INTEGER,
--     BIT STRING, OCTET STRING, OBJECT IDENTIFIER and the string types
--   Client: the CMP client beside Parser/
--     its SHA-256 (Sha256), hmac_sha256() and derive_key() (Digest); and of
--     main() the key, the ProtectedPart with its MAC, the constants, the
--     request over the socket (Exchange) and the answer (Answer)
--   SelfTest: the program main.c beside Parser/, up to its exit status
-- Tree is the abstract view that parser and serializer share, which the code does not have: a tree of
-- tagged octet strings with its DER encoding and the pre-order list of its nodes. RoundTrip puts the
-- parts together. Base has the shared helpers: Boolean tests, lists as C arrays, outcomes, bits.
--
-- How the code is rendered. A function takes its state and returns an outcome: `done` with the
-- values of the output pointers and the state left, `failed` with the asn1_error_t and the state
-- left, `fault` for an access outside an array, `out_of_fuel` for a bound of the model that is too
-- small. In Client and SelfTest `none` is such an access. The states are the
-- reader, the serializer and, for the parser, the reader with the result. A size_t wraps at 2 ^ 64
-- (add_size and sub_size); an int64_t is its bit pattern; a byte is a number below 256, and a value
-- read from memory is never reduced. A pointer is the list of the bytes from it to the end of its
-- array, so that a pointer into the input that the parser stores shows what is behind it; NULL is
-- `none`, or no bytes where the length is 0. A pointer to a node is the node.
--
-- Bounds. parse_node() recurses on the depth left, from ASN1_MAX_DEPTH, as the test of the code
-- does. The loops over children run for one round more than there are free cells, since each round
-- fills a cell. The octets of a length take 8 rounds, in each of the three loops that count them,
-- the groups of a 32-bit tag 5, the components of an identifier as many rounds as there are bytes.
-- sha256_update() counts with a uint32_t, and its model is of inputs shorter than 2 ^ 32 bytes.
--
-- Not modelled: asn1_node_index(), which subtracts pointers; what a function leaves in its output
-- where it fails; the fields of the messages of the client, whose encoders and decoders are
-- generated (Client.Message, Client.Answer, Client.Exchange and SelfTest take them as parameters,
-- and the network too, with what each call of send() took); what the programs print; the other
-- programs beside them, which test and print; and dumpasn1.c, a copy of another project's tool.
-- The compiler in Compiler/ is not C.
pub mod Base
pub mod Error
pub mod Identifier
pub mod Buffer
pub mod Encoding
pub mod Parser
pub mod Tree
pub mod Serializer
pub mod RoundTrip
pub mod Iterator
pub mod Types
pub mod Client
pub mod SelfTest
mod Examples
