-- ===== src/Tests.antt =====
-- Samples, and each theorem of the results at one of them.
pub mod Samples
pub mod Values
pub mod Payloads
pub mod Packets
pub mod Pending
pub mod Queues
pub mod Signatures
pub mod Builders
pub mod Descriptors
pub mod Tasks
pub mod Tables
pub mod Clients
