-- ===== src/Mount.antt =====
-- src/protocol/nfs/mount: the procedures of the mount protocol.
pub mod Text
pub mod Root
pub mod Effects
use nfs_mamont_mirror.Prelude.{ℕ, Bool, true, false, Option, none, some, List, [], ◌∷◌}
use nfs_mamont_mirror.Prelude.Result.{Result, ok, err}
use nfs_mamont_mirror.Xdr.Reader.{Bytes, Error, Writer, ◌⨾◌, Codec}
use nfs_mamont_mirror.Xdr.Order.{ByteOrder}
use nfs_mamont_mirror.Xdr.Basic.{bool, vec_u8, find_variant}
use nfs_mamont_mirror.Xdr.Rpc.{
  CallBody, rpc_msg_codec, make_success_reply, proc_unavail_reply_message, auth_flavor_number,
  auth_null, auth_unix,
}
use nfs_mamont_mirror.Xdr.Nfs3.Enums.{NfsStat3}
use nfs_mamont_mirror.Xdr.Mount.{
  MountStat3, mnt3_ok, mnt3err_noent, mountstat3_codec, MountRes3Ok, mountres3_ok_codec,
  MountProgram, mount_program_number, mount_programs,
}
use nfs_mamont_mirror.Vfs.{slash, id_to_fh, path_to_id}
use nfs_mamont_mirror.Rpc.Context.{Context, World, send_signal}
use nfs_mamont_mirror.Portmap.{with_args}
use nfs_mamont_mirror.Mount.Text.{
  from_utf8_or_default, strip_prefix, trim_start_matches, trim_end_matches, trim,
}

-- What is left of the path below the export, after one slash.
unfoldable pub path_below : Bytes → Bytes
path_below path = slash ∷ trim (trim_end_matches slash (trim_start_matches slash path))

module _ ⦃order : ByteOrder⦄ where
  abbrev pub answer_status : ℕ → MountStat3 → Writer
  answer_status xid status =
      rpc_msg_codec.serialize (make_success_reply xid) ⨾ mountstat3_codec.serialize status

  unfoldable pub mountproc3_null : ℕ → Writer
  mountproc3_null xid = rpc_msg_codec.serialize (make_success_reply xid)

module _ {ℓ} {S : Type ℓ} ⦃order : ByteOrder⦄ where
  -- `mountres3_ok` for the directory that was found
  abbrev pub mounted : Context S → ℕ → MountRes3Ok
  mounted context fileid = record {
    fhandle = (id_to_fh context.vfs fileid).bytes;
    auth_flavors = auth_flavor_number auth_null ∷ auth_flavor_number auth_unix ∷ [];
  }

  abbrev pub answer_mnt : ℕ → Context S → World S → Result NfsStat3 ℕ × S → Writer × World S
  answer_mnt xid context w (ok fileid, s) = (
    answer_status xid mnt3_ok ⨾ mountres3_ok_codec.serialize (mounted context fileid),
    send_signal context true (record w { fs = s }),
  )
  answer_mnt xid context w (err e, s) = (answer_status xid mnt3err_noent, record w { fs = s })

  abbrev pub mount_path : ℕ → Context S → World S → Option Bytes → Writer × World S
  mount_path xid context w none = (answer_status xid mnt3err_noent, w)
  mount_path xid context w (some path) =
      answer_mnt xid context w (path_to_id context.vfs (path_below path) w.fs)

  unfoldable pub mountproc3_mnt : ℕ → Bytes → Context S → World S → Writer × World S
  mountproc3_mnt xid input context w = with_args (vec_u8.deserialize input) w λ path.
      mount_path xid context w (strip_prefix context.export_name (from_utf8_or_default path))

  unfoldable pub mountproc3_umnt : ℕ → Bytes → Context S → World S → Writer × World S
  mountproc3_umnt xid input context w =
      with_args (vec_u8.deserialize input) w
        λ path. (answer_status xid mnt3_ok, send_signal context false w)

  unfoldable pub mountproc3_umnt_all : ℕ → Context S → World S → Writer × World S
  mountproc3_umnt_all xid context w = (answer_status xid mnt3_ok, send_signal context false w)

  unfoldable pub mountproc3_export : ℕ → Context S → Writer
  mountproc3_export xid context =
      rpc_msg_codec.serialize (make_success_reply xid)
      ⨾ bool.serialize true
      ⨾ vec_u8.serialize context.export_name
      ⨾ bool.serialize false
      ⨾ bool.serialize false

  abbrev pub run_program : Option MountProgram → ℕ → Bytes → Context S → World S → Writer × World S
  run_program (some MountProgram.mountproc3_null) xid input context w = (mountproc3_null xid, w)
  run_program (some MountProgram.mountproc3_mnt) xid input context w =
      mountproc3_mnt xid input context w
  run_program (some MountProgram.mountproc3_umnt) xid input context w =
      mountproc3_umnt xid input context w
  run_program (some MountProgram.mountproc3_umntall) xid input context w =
      mountproc3_umnt_all xid context w
  run_program (some MountProgram.mountproc3_export) xid input context w =
      (mountproc3_export xid context, w)
  run_program _ xid input context w = (rpc_msg_codec.serialize (proc_unavail_reply_message xid), w)

  -- The version of the call is not looked at.
  unfoldable pub handle_mount : ℕ → CallBody → Bytes → Context S → World S → Writer × World S
  handle_mount xid call input context w =
      run_program (find_variant mount_program_number mount_programs call.proc) xid input context w
