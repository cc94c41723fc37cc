-- ===== src/Xdr/Nfs3/Dir.antt =====
-- src/protocol/xdr/nfs3/dir.rs: MKDIR, SYMLINK, MKNOD, READDIR and READDIRPLUS.
use nfs_mamont_mirror.Prelude.{ℕ, Option, List, [], ◌∷◌}
use nfs_mamont_mirror.Xdr.Reader.{Bytes, pure, ◌>>=◌, ◌⨾◌, Codec}
use nfs_mamont_mirror.Xdr.Order.{ByteOrder}
use nfs_mamont_mirror.Xdr.Basic.{u32, u64, enum, opaque, vec_u8, option}
use nfs_mamont_mirror.Xdr.Nfs3.{
  NfsFh3, Fattr3, Sattr3, nfs_fh3_codec, fattr3_codec, sattr3_codec, Specdata3, specdata3_codec,
}
use nfs_mamont_mirror.Xdr.Nfs3.Enums.{Ftype3, ftype3_codec}
use nfs_mamont_mirror.Xdr.Nfs3.Args.{DirOpArgs3, SymlinkData3, diropargs3_codec, symlinkdata3_codec}

pub data DeviceType3 : Type 0 where
  nf3_chr nf3_blk nf3_sock nf3_fifo : DeviceType3

abbrev pub devicetype3_number : DeviceType3 → ℕ
devicetype3_number nf3_chr = 0
devicetype3_number nf3_blk = 1
devicetype3_number nf3_sock = 2
devicetype3_number nf3_fifo = 3

abbrev pub devicetype3s : List DeviceType3
devicetype3s = nf3_chr ∷ nf3_blk ∷ nf3_sock ∷ nf3_fifo ∷ []

pub record Entry3 : Type 0 where
  pub fileid : ℕ
  pub name : Bytes
  pub cookie : ℕ

pub record Readdir3Args : Type 0 where
  pub dir : NfsFh3
  pub cookie : ℕ
  pub cookieverf : Bytes
  pub dircount : ℕ

pub record EntryPlus3 : Type 0 where
  pub fileid : ℕ
  pub name : Bytes
  pub cookie : ℕ
  pub name_attributes : Option Fattr3
  pub name_handle : Option NfsFh3

pub record Readdirplus3Args : Type 0 where
  pub dir : NfsFh3
  pub cookie : ℕ
  pub cookieverf : Bytes
  pub dircount : ℕ
  pub maxcount : ℕ

pub record DeviceData3 : Type 0 where
  pub dev_type : DeviceType3
  pub device : Specdata3

pub record MknodData3 : Type 0 where
  pub mknod_type : Ftype3
  pub device : DeviceData3

pub record Mknod3Args : Type 0 where
  pub where_dir : DirOpArgs3
  pub what : MknodData3

pub record Mkdir3Args : Type 0 where
  pub dirops : DirOpArgs3
  pub attributes : Sattr3

pub record Symlink3Args : Type 0 where
  pub dirops : DirOpArgs3
  pub symlink : SymlinkData3

module _ ⦃order : ByteOrder⦄ where
  unfoldable pub devicetype3_codec : Codec DeviceType3
  devicetype3_codec = enum devicetype3_number devicetype3s

  unfoldable pub entry3_codec : Codec Entry3
  entry3_codec = record {
    serialize = λ v. u64.serialize v.fileid ⨾ vec_u8.serialize v.name ⨾ u64.serialize v.cookie;
    deserialize = (do
      fileid ← u64.deserialize
      name ← vec_u8.deserialize
      cookie ← u64.deserialize
      pure (record { fileid = fileid; name = name; cookie = cookie }));
  }

  unfoldable pub readdir3_args_codec : Codec Readdir3Args
  readdir3_args_codec = record {
    serialize = λ v.
        nfs_fh3_codec.serialize v.dir
        ⨾ u64.serialize v.cookie
        ⨾ (opaque 8).serialize v.cookieverf
        ⨾ u32.serialize v.dircount;
    deserialize = (do
      dir ← nfs_fh3_codec.deserialize
      cookie ← u64.deserialize
      cookieverf ← (opaque 8).deserialize
      dircount ← u32.deserialize
      pure (record { dir = dir; cookie = cookie; cookieverf = cookieverf; dircount = dircount }));
  }

  unfoldable pub entryplus3_codec : Codec EntryPlus3
  entryplus3_codec = record {
    serialize = λ v.
        u64.serialize v.fileid
        ⨾ vec_u8.serialize v.name
        ⨾ u64.serialize v.cookie
        ⨾ (option fattr3_codec).serialize v.name_attributes
        ⨾ (option nfs_fh3_codec).serialize v.name_handle;
    deserialize = (do
      fileid ← u64.deserialize
      name ← vec_u8.deserialize
      cookie ← u64.deserialize
      name_attributes ← (option fattr3_codec).deserialize
      name_handle ← (option nfs_fh3_codec).deserialize
      pure (record {
        fileid = fileid;
        name = name;
        cookie = cookie;
        name_attributes = name_attributes;
        name_handle = name_handle;
      }));
  }

  unfoldable pub readdirplus3_args_codec : Codec Readdirplus3Args
  readdirplus3_args_codec = record {
    serialize = λ v.
        nfs_fh3_codec.serialize v.dir
        ⨾ u64.serialize v.cookie
        ⨾ (opaque 8).serialize v.cookieverf
        ⨾ u32.serialize v.dircount
        ⨾ u32.serialize v.maxcount;
    deserialize = (do
      dir ← nfs_fh3_codec.deserialize
      cookie ← u64.deserialize
      cookieverf ← (opaque 8).deserialize
      dircount ← u32.deserialize
      maxcount ← u32.deserialize
      pure (record {
        dir = dir;
        cookie = cookie;
        cookieverf = cookieverf;
        dircount = dircount;
        maxcount = maxcount;
      }));
  }

  unfoldable pub devicedata3_codec : Codec DeviceData3
  devicedata3_codec = record {
    serialize = λ v. devicetype3_codec.serialize v.dev_type ⨾ specdata3_codec.serialize v.device;
    deserialize = (do
      dev_type ← devicetype3_codec.deserialize
      device ← specdata3_codec.deserialize
      pure (record { dev_type = dev_type; device = device }));
  }

  unfoldable pub mknoddata3_codec : Codec MknodData3
  mknoddata3_codec = record {
    serialize = λ v. ftype3_codec.serialize v.mknod_type ⨾ devicedata3_codec.serialize v.device;
    deserialize = (do
      mknod_type ← ftype3_codec.deserialize
      device ← devicedata3_codec.deserialize
      pure (record { mknod_type = mknod_type; device = device }));
  }

  unfoldable pub mknod3_args_codec : Codec Mknod3Args
  mknod3_args_codec = record {
    serialize = λ v. diropargs3_codec.serialize v.where_dir ⨾ mknoddata3_codec.serialize v.what;
    deserialize = (do
      where_dir ← diropargs3_codec.deserialize
      what ← mknoddata3_codec.deserialize
      pure (record { where_dir = where_dir; what = what }));
  }

  unfoldable pub mkdir3_args_codec : Codec Mkdir3Args
  mkdir3_args_codec = record {
    serialize = λ v. diropargs3_codec.serialize v.dirops ⨾ sattr3_codec.serialize v.attributes;
    deserialize = (do
      dirops ← diropargs3_codec.deserialize
      attributes ← sattr3_codec.deserialize
      pure (record { dirops = dirops; attributes = attributes }));
  }

  unfoldable pub symlink3_args_codec : Codec Symlink3Args
  symlink3_args_codec = record {
    serialize = λ v. diropargs3_codec.serialize v.dirops ⨾ symlinkdata3_codec.serialize v.symlink;
    deserialize = (do
      dirops ← diropargs3_codec.deserialize
      symlink ← symlinkdata3_codec.deserialize
      pure (record { dirops = dirops; symlink = symlink }));
  }
