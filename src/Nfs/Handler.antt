-- ===== src/Nfs/Handler.antt =====
-- src/protocol/nfs/v3/mod.rs: the dispatcher of the NFS procedures.
use nfs_mamont_mirror.Prelude.{ℕ, Option, some, ◌==◌, if◌then◌else◌}
use nfs_mamont_mirror.Xdr.Reader.{Bytes, Writer}
use nfs_mamont_mirror.Xdr.Order.{ByteOrder}
use nfs_mamont_mirror.Xdr.Basic.{find_variant}
use nfs_mamont_mirror.Xdr.Rpc.{
  CallBody, rpc_msg_codec, prog_mismatch_reply_message, proc_unavail_reply_message,
}
use nfs_mamont_mirror.Xdr.Nfs3 as Nfs3
use nfs_mamont_mirror.Xdr.Nfs3.Enums.{NfsProgram, nfs_program_number, nfs_programs}
use nfs_mamont_mirror.Rpc.Context.{Context}
use nfs_mamont_mirror.Nfs.{Procedure}
use nfs_mamont_mirror.Nfs.Attributes.{
  nfsproc3_null, nfsproc3_getattr, nfsproc3_setattr, nfsproc3_lookup, nfsproc3_readlink,
}
use nfs_mamont_mirror.Nfs.Data.{nfsproc3_read, nfsproc3_write, nfsproc3_commit}
use nfs_mamont_mirror.Nfs.Directory.{
  nfsproc3_create, nfsproc3_mkdir, nfsproc3_symlink, nfsproc3_mknod, nfsproc3_remove,
  nfsproc3_rename, nfsproc3_link,
}
use nfs_mamont_mirror.Nfs.System.{nfsproc3_fsinfo, nfsproc3_fsstat, nfsproc3_pathconf}
use nfs_mamont_mirror.Nfs.Access.{nfsproc3_access}
use nfs_mamont_mirror.Nfs.Listing.{nfsproc3_readdir, nfsproc3_readdirplus}

module _ {ℓ} {S : Type ℓ} ⦃order : ByteOrder⦄ where
  abbrev pub run_program : Option NfsProgram → Procedure S
  run_program (some NfsProgram.nfsproc3_null) xid input context s = (nfsproc3_null xid, s)
  run_program (some NfsProgram.nfsproc3_getattr) xid input context s =
      nfsproc3_getattr xid input context s
  run_program (some NfsProgram.nfsproc3_lookup) xid input context s =
      nfsproc3_lookup xid input context s
  run_program (some NfsProgram.nfsproc3_read) xid input context s =
      nfsproc3_read xid input context s
  run_program (some NfsProgram.nfsproc3_fsinfo) xid input context s =
      nfsproc3_fsinfo xid input context s
  run_program (some NfsProgram.nfsproc3_access) xid input context s =
      nfsproc3_access xid input context s
  run_program (some NfsProgram.nfsproc3_pathconf) xid input context s =
      nfsproc3_pathconf xid input context s
  run_program (some NfsProgram.nfsproc3_fsstat) xid input context s =
      nfsproc3_fsstat xid input context s
  run_program (some NfsProgram.nfsproc3_readdir) xid input context s =
      nfsproc3_readdir xid input context s
  run_program (some NfsProgram.nfsproc3_readdirplus) xid input context s =
      nfsproc3_readdirplus xid input context s
  run_program (some NfsProgram.nfsproc3_write) xid input context s =
      nfsproc3_write xid input context s
  run_program (some NfsProgram.nfsproc3_create) xid input context s =
      nfsproc3_create xid input context s
  run_program (some NfsProgram.nfsproc3_setattr) xid input context s =
      nfsproc3_setattr xid input context s
  run_program (some NfsProgram.nfsproc3_remove) xid input context s =
      nfsproc3_remove xid input context s
  run_program (some NfsProgram.nfsproc3_rmdir) xid input context s =
      nfsproc3_remove xid input context s
  run_program (some NfsProgram.nfsproc3_rename) xid input context s =
      nfsproc3_rename xid input context s
  run_program (some NfsProgram.nfsproc3_mkdir) xid input context s =
      nfsproc3_mkdir xid input context s
  run_program (some NfsProgram.nfsproc3_symlink) xid input context s =
      nfsproc3_symlink xid input context s
  run_program (some NfsProgram.nfsproc3_readlink) xid input context s =
      nfsproc3_readlink xid input context s
  run_program (some NfsProgram.nfsproc3_mknod) xid input context s =
      nfsproc3_mknod xid input context s
  run_program (some NfsProgram.nfsproc3_link) xid input context s =
      nfsproc3_link xid input context s
  run_program (some NfsProgram.nfsproc3_commit) xid input context s =
      nfsproc3_commit xid input context s
  run_program _ xid input context s = (rpc_msg_codec.serialize (proc_unavail_reply_message xid), s)

  unfoldable pub handle_nfs : ℕ → CallBody → Bytes → Context S → S → Writer × S
  handle_nfs xid call input context s =
      if call.vers == Nfs3.version
      then run_program (find_variant nfs_program_number nfs_programs call.proc) xid input context s
      else (rpc_msg_codec.serialize (prog_mismatch_reply_message xid Nfs3.version), s)
