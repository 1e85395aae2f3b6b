-- ===== src/Client.antt =====
-- The client program in Languages: the digests, the message and the exchange of the CMP client.
pub mod Sha256
pub mod WordBits
pub mod Digest
pub mod Returns
pub mod Keys
pub mod Blocks
pub mod Padding
pub mod Standard
pub mod Mac
pub mod Message
pub mod Request
pub mod Answer
pub mod Split
pub mod Exchange
pub mod Sent
