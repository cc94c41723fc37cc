-- ===== src/Rpc/Context.antt =====
-- src/protocol/rpc/context.rs: what a call is run with. `Context` is what each connection has for
-- itself, and the handles that never change; `World` is what the connections share: the state `S`
-- of the file system, the tracker, the port mapper's table, and what was sent to `mount_signal`.
use nfs_mamont_mirror.Prelude.{ℕ, Bool, List, [], ◌∷◌, ◌++◌, if◌then◌else◌}
use nfs_mamont_mirror.Xdr.Reader.{Bytes}
use nfs_mamont_mirror.Xdr.Rpc.{AuthUnix}
use nfs_mamont_mirror.Vfs.{NfsFileSystem}
use nfs_mamont_mirror.Rpc.Tracker.{TransactionTracker}
use nfs_mamont_mirror.Portmap.{PortmapTable}

pub record Context {ℓ} (S : Type ℓ) : Type ℓ where
  pub local_port : ℕ
  pub client_addr : Bytes
  pub auth : AuthUnix
  pub vfs : NfsFileSystem S
  -- Whether there is a channel.
  pub mount_signal : Bool
  pub export_name : Bytes

pub record World {ℓ} (S : Type ℓ) : Type ℓ where
  pub fs : S
  pub transaction_tracker : TransactionTracker
  pub portmap_table : PortmapTable
  pub signals : List Bool

-- `if let Some(ref chan) = context.mount_signal { let _ = chan.send(mounted).await; }`
unfoldable pub send_signal {ℓ} : {S : Type ℓ} → Context S → Bool → World S → World S
send_signal context mounted w = record w {
  signals = if context.mount_signal then w.signals ++ mounted ∷ [] else w.signals;
}
