-- ===== src/Proto.antt =====
-- proto/: the messages of the swarm protocol and what the crate adds to the generated code.
pub mod Swarm
pub mod SendData
pub mod Iter
pub mod Gateways
pub mod Rpc
pub mod Conversions
