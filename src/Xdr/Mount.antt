-- ===== src/Xdr/Mount.antt =====
-- src/protocol/xdr/mount.rs: the messages of the mount protocol.
use nfs_mamont_mirror.Prelude.{ℕ, List, [], ◌∷◌}
use nfs_mamont_mirror.Xdr.Reader.{Bytes, pure, ◌>>=◌, ◌⨾◌, Codec}
use nfs_mamont_mirror.Xdr.Order.{ByteOrder}
use nfs_mamont_mirror.Xdr.Basic.{u32, enum, vec_u8, vec}

abbrev pub program : ℕ
program = 100005

pub data MountStat3 : Type 0 where
  mnt3_ok mnt3err_perm mnt3err_noent mnt3err_io mnt3err_acces : MountStat3
  mnt3err_notdir mnt3err_inval mnt3err_nametoolong mnt3err_notsupp mnt3err_serverfault : MountStat3

abbrev pub mountstat3_number : MountStat3 → ℕ
mountstat3_number mnt3_ok = 0
mountstat3_number mnt3err_perm = 1
mountstat3_number mnt3err_noent = 2
mountstat3_number mnt3err_io = 5
mountstat3_number mnt3err_acces = 13
mountstat3_number mnt3err_notdir = 20
mountstat3_number mnt3err_inval = 22
mountstat3_number mnt3err_nametoolong = 63
mountstat3_number mnt3err_notsupp = 10004
mountstat3_number mnt3err_serverfault = 10006

abbrev pub mountstat3s : List MountStat3
mountstat3s =
    mnt3_ok ∷ mnt3err_perm ∷ mnt3err_noent ∷ mnt3err_io ∷ mnt3err_acces ∷ mnt3err_notdir
    ∷ mnt3err_inval ∷ mnt3err_nametoolong ∷ mnt3err_notsupp ∷ mnt3err_serverfault ∷ []

pub record MountRes3Ok : Type 0 where
  pub fhandle : Bytes
  pub auth_flavors : List ℕ

pub data MountProgram : Type 0 where
  mountproc3_null mountproc3_mnt mountproc3_dump mountproc3_umnt mountproc3_umntall : MountProgram
  mountproc3_export invalid : MountProgram

abbrev pub mount_program_number : MountProgram → ℕ
mount_program_number mountproc3_null = 0
mount_program_number mountproc3_mnt = 1
mount_program_number mountproc3_dump = 2
mount_program_number mountproc3_umnt = 3
mount_program_number mountproc3_umntall = 4
mount_program_number mountproc3_export = 5
mount_program_number invalid = 6

abbrev pub mount_programs : List MountProgram
mount_programs =
    mountproc3_null ∷ mountproc3_mnt ∷ mountproc3_dump ∷ mountproc3_umnt ∷ mountproc3_umntall
    ∷ mountproc3_export ∷ invalid ∷ []

module _ ⦃order : ByteOrder⦄ where
  unfoldable pub mountstat3_codec : Codec MountStat3
  mountstat3_codec = enum mountstat3_number mountstat3s

  unfoldable pub mountres3_ok_codec : Codec MountRes3Ok
  mountres3_ok_codec = record {
    serialize = λ v. vec_u8.serialize v.fhandle ⨾ (vec u32).serialize v.auth_flavors;
    deserialize = (do
      fhandle ← vec_u8.deserialize
      auth_flavors ← (vec u32).deserialize
      pure (record { fhandle = fhandle; auth_flavors = auth_flavors }));
  }
