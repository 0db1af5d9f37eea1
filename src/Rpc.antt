-- ===== src/Rpc.antt =====
-- The RPC layer: rpc.h, and the argument types with which the client calls what the server
-- registers.
mod Bits
pub mod ArgTypes
pub mod Procedures
pub mod Agreement
pub mod Library
