-- ===== src/Mount/Effects.antt =====
-- src/protocol/nfs/mount: what the mount procedures can change.
use nfs_mamont_mirror.Prelude.{ℕ, ◌≡◌, refl, Option, none, some, Bool, false, true}
use nfs_mamont_mirror.Prelude.Result.{Result, ok, err}
use nfs_mamont_mirror.Xdr.Reader.{Bytes, Error, Writer}
use nfs_mamont_mirror.Xdr.Order.{ByteOrder}
use nfs_mamont_mirror.Xdr.Basic.{vec_u8}
use nfs_mamont_mirror.Xdr.Rpc.{CallBody}
use nfs_mamont_mirror.Xdr.Nfs3.Enums.{NfsStat3}
use nfs_mamont_mirror.Xdr.Mount.{MountProgram}
use nfs_mamont_mirror.Rpc.Context.{Context, World, send_signal}
use nfs_mamont_mirror.Portmap.{with_args}
use nfs_mamont_mirror.Mount.{
  answer_mnt, mount_path, mountproc3_mnt, mountproc3_umnt, mountproc3_umnt_all, run_program,
  handle_mount,
}

-- The tracker and the port mapper's table are the same.
abbrev pub SameTables {ℓ} : {S : Type ℓ} → World S → World S → Type 0
SameTables v w =
    (v.transaction_tracker ≡ w.transaction_tracker) × (v.portmap_table ≡ w.portmap_table)

module _ {ℓ} {S : Type ℓ} where
  send_signal-SameTables :
      (context : Context S) (mounted : Bool) (w : World S)
      → SameTables (send_signal context mounted w) w
  unfolding send_signal
  send_signal-SameTables context mounted w = (refl, refl)

  with_args-SameTables {κ} :
      {A : Type κ} (r : Result Error (A × Bytes)) (w : World S) (f : A → Writer × World S)
      → ((a : A) → SameTables (f a).1 w)
      → SameTables (with_args r w f).1 w
  with_args-SameTables (ok (a, rest)) w f h = h a
  with_args-SameTables (err e) w f h = (refl, refl)

module _ {ℓ} {S : Type ℓ} ⦃order : ByteOrder⦄ where
  answer_mnt-SameTables :
      (xid : ℕ) (context : Context S) (w : World S) (r : Result NfsStat3 ℕ × S)
      → SameTables (answer_mnt xid context w r).1 w
  answer_mnt-SameTables xid context w (ok fileid, s) =
      send_signal-SameTables context true (record w { fs = s })
  answer_mnt-SameTables xid context w (err e, s) = (refl, refl)

  mount_path-SameTables :
      (xid : ℕ) (context : Context S) (w : World S) (path : Option Bytes)
      → SameTables (mount_path xid context w path).1 w
  mount_path-SameTables xid context w none = (refl, refl)
  mount_path-SameTables xid context w (some path) = answer_mnt-SameTables xid context w _

  run_program-SameTables :
      (program : Option MountProgram) (xid : ℕ) (input : Bytes) (context : Context S) (w : World S)
      → SameTables (run_program program xid input context w).1 w
  unfolding mountproc3_mnt mountproc3_umnt mountproc3_umnt_all
  run_program-SameTables (some MountProgram.mountproc3_mnt) xid input context w =
      with_args-SameTables (vec_u8.deserialize input) w _
        λ path. mount_path-SameTables xid context w _
  run_program-SameTables (some MountProgram.mountproc3_umnt) xid input context w =
      with_args-SameTables (vec_u8.deserialize input) w _
        λ path. send_signal-SameTables context false w
  run_program-SameTables (some MountProgram.mountproc3_umntall) xid input context w =
      send_signal-SameTables context false w
  run_program-SameTables _ xid input context w = (refl, refl)

  -- No mount procedure changes the transaction tracker or the port mapper's table.
  pub handle_mount-SameTables :
      (xid : ℕ) (call : CallBody) (input : Bytes) (context : Context S) (w : World S)
      → SameTables (handle_mount xid call input context w).1 w
  unfolding handle_mount
  handle_mount-SameTables xid call input context w = run_program-SameTables _ xid input context w
