-- ===== src/Types.antt =====
-- Parser/src/asn1_types.c and include/asn1/asn1_types.h: values of the basic types in
-- nodes. A parser reads through the pointers of the node it is given and writes no state; what it
-- leaves in its output where it fails is not modelled.
pub mod Access
pub mod Boolean
pub mod Integer
pub mod BitString
pub mod Strings
pub mod Oid
pub mod Octets
pub mod Safety
pub mod Answers
pub mod Decoding
pub mod Leaf
pub mod TopOctet
pub mod IntegerRun
pub mod RoundTrip
