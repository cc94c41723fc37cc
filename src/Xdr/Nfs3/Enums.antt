-- ===== src/Xdr/Nfs3/Enums.antt =====
-- src/protocol/xdr/nfs3/mod.rs: the enumerations of NFS version 3.
use nfs_mamont_mirror.Prelude.{ℕ, List, [], ◌∷◌}
use nfs_mamont_mirror.Xdr.Reader.{Codec}
use nfs_mamont_mirror.Xdr.Order.{ByteOrder}
use nfs_mamont_mirror.Xdr.Basic.{enum}

pub data NfsProgram : Type 0 where
  nfsproc3_null nfsproc3_getattr nfsproc3_setattr nfsproc3_lookup nfsproc3_access : NfsProgram
  nfsproc3_readlink nfsproc3_read nfsproc3_write nfsproc3_create nfsproc3_mkdir : NfsProgram
  nfsproc3_symlink nfsproc3_mknod nfsproc3_remove nfsproc3_rmdir nfsproc3_rename : NfsProgram
  nfsproc3_link nfsproc3_readdir nfsproc3_readdirplus nfsproc3_fsstat nfsproc3_fsinfo : NfsProgram
  nfsproc3_pathconf nfsproc3_commit invalid : NfsProgram

abbrev pub nfs_program_number : NfsProgram → ℕ
nfs_program_number nfsproc3_null = 0
nfs_program_number nfsproc3_getattr = 1
nfs_program_number nfsproc3_setattr = 2
nfs_program_number nfsproc3_lookup = 3
nfs_program_number nfsproc3_access = 4
nfs_program_number nfsproc3_readlink = 5
nfs_program_number nfsproc3_read = 6
nfs_program_number nfsproc3_write = 7
nfs_program_number nfsproc3_create = 8
nfs_program_number nfsproc3_mkdir = 9
nfs_program_number nfsproc3_symlink = 10
nfs_program_number nfsproc3_mknod = 11
nfs_program_number nfsproc3_remove = 12
nfs_program_number nfsproc3_rmdir = 13
nfs_program_number nfsproc3_rename = 14
nfs_program_number nfsproc3_link = 15
nfs_program_number nfsproc3_readdir = 16
nfs_program_number nfsproc3_readdirplus = 17
nfs_program_number nfsproc3_fsstat = 18
nfs_program_number nfsproc3_fsinfo = 19
nfs_program_number nfsproc3_pathconf = 20
nfs_program_number nfsproc3_commit = 21
nfs_program_number invalid = 22

abbrev pub nfs_programs : List NfsProgram
nfs_programs =
    nfsproc3_null ∷ nfsproc3_getattr ∷ nfsproc3_setattr ∷ nfsproc3_lookup ∷ nfsproc3_access
    ∷ nfsproc3_readlink ∷ nfsproc3_read ∷ nfsproc3_write ∷ nfsproc3_create ∷ nfsproc3_mkdir
    ∷ nfsproc3_symlink ∷ nfsproc3_mknod ∷ nfsproc3_remove ∷ nfsproc3_rmdir ∷ nfsproc3_rename
    ∷ nfsproc3_link ∷ nfsproc3_readdir ∷ nfsproc3_readdirplus ∷ nfsproc3_fsstat ∷ nfsproc3_fsinfo
    ∷ nfsproc3_pathconf ∷ nfsproc3_commit ∷ invalid ∷ []

pub data NfsStat3 : Type 0 where
  nfs3_ok nfs3err_perm nfs3err_noent nfs3err_io nfs3err_nxio : NfsStat3
  nfs3err_acces nfs3err_exist nfs3err_xdev nfs3err_nodev nfs3err_notdir : NfsStat3
  nfs3err_isdir nfs3err_inval nfs3err_fbig nfs3err_nospc nfs3err_rofs : NfsStat3
  nfs3err_mlink nfs3err_nametoolong nfs3err_notempty nfs3err_dquot nfs3err_stale : NfsStat3
  nfs3err_remote nfs3err_badhandle nfs3err_not_sync nfs3err_bad_cookie nfs3err_notsupp : NfsStat3
  nfs3err_toosmall nfs3err_serverfault nfs3err_badtype nfs3err_jukebox : NfsStat3

abbrev pub nfsstat3_number : NfsStat3 → ℕ
nfsstat3_number nfs3_ok = 0
nfsstat3_number nfs3err_perm = 1
nfsstat3_number nfs3err_noent = 2
nfsstat3_number nfs3err_io = 5
nfsstat3_number nfs3err_nxio = 6
nfsstat3_number nfs3err_acces = 13
nfsstat3_number nfs3err_exist = 17
nfsstat3_number nfs3err_xdev = 18
nfsstat3_number nfs3err_nodev = 19
nfsstat3_number nfs3err_notdir = 20
nfsstat3_number nfs3err_isdir = 21
nfsstat3_number nfs3err_inval = 22
nfsstat3_number nfs3err_fbig = 27
nfsstat3_number nfs3err_nospc = 28
nfsstat3_number nfs3err_rofs = 30
nfsstat3_number nfs3err_mlink = 31
nfsstat3_number nfs3err_nametoolong = 63
nfsstat3_number nfs3err_notempty = 66
nfsstat3_number nfs3err_dquot = 69
nfsstat3_number nfs3err_stale = 70
nfsstat3_number nfs3err_remote = 71
nfsstat3_number nfs3err_badhandle = 10001
nfsstat3_number nfs3err_not_sync = 10002
nfsstat3_number nfs3err_bad_cookie = 10003
nfsstat3_number nfs3err_notsupp = 10004
nfsstat3_number nfs3err_toosmall = 10005
nfsstat3_number nfs3err_serverfault = 10006
nfsstat3_number nfs3err_badtype = 10007
nfsstat3_number nfs3err_jukebox = 10008

abbrev pub nfsstat3s : List NfsStat3
nfsstat3s =
    nfs3_ok ∷ nfs3err_perm ∷ nfs3err_noent ∷ nfs3err_io ∷ nfs3err_nxio ∷ nfs3err_acces
    ∷ nfs3err_exist ∷ nfs3err_xdev ∷ nfs3err_nodev ∷ nfs3err_notdir ∷ nfs3err_isdir ∷ nfs3err_inval
    ∷ nfs3err_fbig ∷ nfs3err_nospc ∷ nfs3err_rofs ∷ nfs3err_mlink ∷ nfs3err_nametoolong
    ∷ nfs3err_notempty ∷ nfs3err_dquot ∷ nfs3err_stale ∷ nfs3err_remote ∷ nfs3err_badhandle
    ∷ nfs3err_not_sync ∷ nfs3err_bad_cookie ∷ nfs3err_notsupp ∷ nfs3err_toosmall
    ∷ nfs3err_serverfault ∷ nfs3err_badtype ∷ nfs3err_jukebox ∷ []

pub data Ftype3 : Type 0 where
  nf3_reg nf3_dir nf3_blk nf3_chr nf3_lnk : Ftype3
  nf3_sock nf3_fifo : Ftype3

abbrev pub ftype3_number : Ftype3 → ℕ
ftype3_number nf3_reg = 1
ftype3_number nf3_dir = 2
ftype3_number nf3_blk = 3
ftype3_number nf3_chr = 4
ftype3_number nf3_lnk = 5
ftype3_number nf3_sock = 6
ftype3_number nf3_fifo = 7

abbrev pub ftype3s : List Ftype3
ftype3s = nf3_reg ∷ nf3_dir ∷ nf3_blk ∷ nf3_chr ∷ nf3_lnk ∷ nf3_sock ∷ nf3_fifo ∷ []

module _ ⦃order : ByteOrder⦄ where
  unfoldable pub nfsstat3_codec : Codec NfsStat3
  nfsstat3_codec = enum nfsstat3_number nfsstat3s

  unfoldable pub ftype3_codec : Codec Ftype3
  ftype3_codec = enum ftype3_number ftype3s
