-- ===== src/Parser.antt =====
-- Parser/src/asn1_parser.c.
pub mod Header
pub mod Node
pub mod Shape
pub mod Safety
pub mod Storing
pub mod Totality
pub mod Required
pub mod LengthCodec
pub mod Canonical
pub mod Grammar
pub mod HeaderSound
pub mod Yields
pub mod Meaning
pub mod Rows
pub mod Content
pub mod Moves
pub mod SafeRows
pub mod Pointers
pub mod Sound
pub mod HeaderComplete
pub mod ValueRun
pub mod TagCodec
pub mod HeaderRun
pub mod TlvRun
pub mod RoundTrip
pub mod ContentRun
pub mod Complete
pub mod Lenient
