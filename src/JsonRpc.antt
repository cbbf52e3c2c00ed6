-- ===== src/JsonRpc.antt =====
-- The JSON-RPC layer of the rust-analyzer session: repository_context_provider/json_rpc.rs.
pub mod Protocol
pub mod Header
pub mod Encode
pub mod Frame
pub mod Correlation
pub mod Message
