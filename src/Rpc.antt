-- ===== src/Rpc.antt =====
-- src/rpc_client.cpp: the JSON-RPC client.
pub mod Base64
pub mod Uri
pub mod Http
pub mod Client
mod Tests
