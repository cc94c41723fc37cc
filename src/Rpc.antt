-- ===== src/Rpc.antt =====
-- src/protocol/rpc: framing, ordered processing, retransmissions and dispatch of RPC calls.
pub mod Fragment
pub mod Tracker
pub mod Connection
pub mod Queue
pub mod Context
pub mod Dispatch
pub mod Service
