-- ===== src/Examples.antt =====
-- The theorems at concrete inputs, and runs of the model.
pub mod Samples
mod Codec
mod Trees
mod Values
mod Oids
mod Stored
mod Typed
mod Digests
mod Constants
mod Messages
mod Accepted
mod Wrapped
mod Programs
