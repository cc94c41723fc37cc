-- ===== src/Xdr.antt =====
-- src/protocol/xdr/mod.rs: the traits `Serialize` and `Deserialize`, and the readers and writers
-- that their implementations are made of.
pub mod Reader
pub mod Order
pub mod Basic
pub mod RoundTrip
pub mod Rpc
pub mod Portmap
pub mod Nfs3
pub mod Mount
pub mod Signed
