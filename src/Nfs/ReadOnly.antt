-- ===== src/Nfs/ReadOnly.antt =====
-- src/protocol/nfs/v3: the check of the capabilities with which the procedures that change a file
-- system begin.
use nfs_mamont_mirror.Prelude.{ℕ, ◌≡◌, some, none}
use nfs_mamont_mirror.Xdr.Reader.{Bytes, Writer, ◌⨾◌}
use nfs_mamont_mirror.Xdr.Order.{ByteOrder}
use nfs_mamont_mirror.Xdr.Basic.{find_variant}
use nfs_mamont_mirror.Xdr.Rpc.{CallBody}
use nfs_mamont_mirror.Xdr.Nfs3 as Nfs3
use nfs_mamont_mirror.Xdr.Nfs3.Enums.{NfsProgram, nfs_program_number, nfs_programs, nfs3err_rofs}
use nfs_mamont_mirror.Vfs.{read_only}
use nfs_mamont_mirror.Rpc.Context.{Context}
use nfs_mamont_mirror.Nfs.{no_wcc, answer_status, post_op, wcc}
use nfs_mamont_mirror.Nfs.Directory.{
  nfsproc3_create, nfsproc3_mkdir, nfsproc3_symlink, nfsproc3_mknod, nfsproc3_remove,
  nfsproc3_rename, nfsproc3_link,
}
use nfs_mamont_mirror.Nfs.Handler.{run_program, handle_nfs}
use nfs_mamont_mirror.Nfs.Attributes.{nfsproc3_setattr}
use nfs_mamont_mirror.Nfs.Data.{nfsproc3_write}

-- The procedures that are to change a file system.
pub data Changes : NfsProgram → Type 0 where
  setattr : Changes NfsProgram.nfsproc3_setattr
  write : Changes NfsProgram.nfsproc3_write
  create : Changes NfsProgram.nfsproc3_create
  mkdir : Changes NfsProgram.nfsproc3_mkdir
  symlink : Changes NfsProgram.nfsproc3_symlink
  mknod : Changes NfsProgram.nfsproc3_mknod
  remove : Changes NfsProgram.nfsproc3_remove
  rmdir : Changes NfsProgram.nfsproc3_rmdir
  rename : Changes NfsProgram.nfsproc3_rename
  link : Changes NfsProgram.nfsproc3_link

module _ ⦃order : ByteOrder⦄ where
  -- What the code writes after the status of a refusal: LINK also the attributes of the file. For
  -- RENAME it is the data of one directory, where RFC 1813 has those of two.
  abbrev pub refusal_body : {program : NfsProgram} → Changes program → Writer
  refusal_body link = post_op none ⨾ wcc no_wcc
  refusal_body _ = wcc no_wcc

module _ {ℓ} {S : Type ℓ} ⦃order : ByteOrder⦄ where
  run_program_read_only :
      {program : NfsProgram} (change : Changes program) (xid : ℕ) (input : Bytes)
      (context : Context S) (s : S)
      → context.vfs.capabilities ≡ read_only
      → run_program (some program) xid input context s
        ≡ (answer_status xid nfs3err_rofs ⨾ refusal_body change, s)
  unfolding nfsproc3_setattr nfsproc3_write nfsproc3_create nfsproc3_mkdir nfsproc3_symlink
      nfsproc3_mknod nfsproc3_remove nfsproc3_rename nfsproc3_link
  run_program_read_only setattr xid input context s h = rw h
  run_program_read_only write xid input context s h = rw h
  run_program_read_only create xid input context s h = rw h
  run_program_read_only mkdir xid input context s h = rw h
  run_program_read_only symlink xid input context s h = rw h
  run_program_read_only mknod xid input context s h = rw h
  run_program_read_only remove xid input context s h = rw h
  run_program_read_only rmdir xid input context s h = rw h
  run_program_read_only rename xid input context s h = rw h
  run_program_read_only link xid input context s h = rw h

  -- If the file system is read-only, then each call of version 3 whose procedure is to change it
  -- leaves it as it was, whatever its arguments are, and is answered an RPC success under the
  -- caller's `xid`, with the status NFS3ERR_ROFS and then one empty `wcc_data`, before which LINK
  -- has a file without attributes. This is the body of RFC 1813, except that its RENAME has two
  -- `wcc_data`, where the code writes one.
  pub handle_nfs_read_only :
      {program : NfsProgram} (change : Changes program) (xid : ℕ) (call : CallBody) (input : Bytes)
      (context : Context S) (s : S)
      → context.vfs.capabilities ≡ read_only
      → call.vers ≡ Nfs3.version
      → find_variant nfs_program_number nfs_programs call.proc ≡ some program
      → handle_nfs xid call input context s
        ≡ (answer_status xid nfs3err_rofs ⨾ refusal_body change, s)
  unfolding handle_nfs
  handle_nfs_read_only change xid call input context s h v p =
      rw (v, p) (run_program_read_only change xid input context s h)
