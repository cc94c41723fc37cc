-- ===== src/Xdr/Nfs3.antt =====
-- src/protocol/xdr/nfs3/mod.rs: the structures of NFS version 3. `filename3` and `nfspath3` are
-- byte strings, with the codec `vec_u8`.
pub mod Enums
pub mod Args
pub mod File
pub mod Dir
pub mod Fs
pub mod RoundTrip
use nfs_mamont_mirror.Prelude.{ℕ, Option, none, ◌==◌, if◌then◌else◌}
use nfs_mamont_mirror.Xdr.Reader.{
  Bytes, invalid_data, Reader, pure, fail, ◌>>=◌, Writer, ◌⨾◌, Codec,
}
use nfs_mamont_mirror.Xdr.Order.{ByteOrder}
use nfs_mamont_mirror.Xdr.Basic.{u32, u64, vec_u8, option}
use nfs_mamont_mirror.Xdr.Nfs3.Enums.{Ftype3, ftype3_codec}

abbrev pub program : ℕ
program = 100003

abbrev pub version : ℕ
version = 3

pub record Specdata3 : Type 0 where
  pub specdata1 : ℕ
  pub specdata2 : ℕ

pub record NfsFh3 : Type 0 where
  pub bytes : Bytes

pub record NfsTime3 : Type 0 where
  pub seconds : ℕ
  pub nseconds : ℕ

pub record Fattr3 : Type 0 where
  pub ftype : Ftype3
  pub mode : ℕ
  pub nlink : ℕ
  pub uid : ℕ
  pub gid : ℕ
  pub size : ℕ
  pub used : ℕ
  pub rdev : Specdata3
  pub fsid : ℕ
  pub fileid : ℕ
  pub atime : NfsTime3
  pub mtime : NfsTime3
  pub ctime : NfsTime3

pub record WccAttr : Type 0 where
  pub size : ℕ
  pub mtime : NfsTime3
  pub ctime : NfsTime3

pub record WccData : Type 0 where
  pub before : Option WccAttr
  pub after : Option Fattr3

pub data SetAtime : Type 0 where
  dont_change set_to_server_time : SetAtime
  set_to_client_time : NfsTime3 → SetAtime

pub data SetMtime : Type 0 where
  dont_change set_to_server_time : SetMtime
  set_to_client_time : NfsTime3 → SetMtime

pub record Sattr3 : Type 0 where
  pub mode : Option ℕ
  pub uid : Option ℕ
  pub gid : Option ℕ
  pub size : Option ℕ
  pub atime : SetAtime
  pub mtime : SetMtime

-- `impl Default for sattr3`
abbrev pub no_changes : Sattr3
no_changes = record {
  mode = none;
  uid = none;
  gid = none;
  size = none;
  atime = SetAtime.dont_change;
  mtime = SetMtime.dont_change;
}

module _ ⦃order : ByteOrder⦄ where
  unfoldable pub specdata3_codec : Codec Specdata3
  specdata3_codec = record {
    serialize = λ v. u32.serialize v.specdata1 ⨾ u32.serialize v.specdata2;
    deserialize = (do
      specdata1 ← u32.deserialize
      specdata2 ← u32.deserialize
      pure (record { specdata1 = specdata1; specdata2 = specdata2 }));
  }

  unfoldable pub nfs_fh3_codec : Codec NfsFh3
  nfs_fh3_codec = record {
    serialize = λ v. vec_u8.serialize v.bytes;
    deserialize = (do bytes ← vec_u8.deserialize; pure (record { bytes = bytes }));
  }

  unfoldable pub nfstime3_codec : Codec NfsTime3
  nfstime3_codec = record {
    serialize = λ v. u32.serialize v.seconds ⨾ u32.serialize v.nseconds;
    deserialize = (do
      seconds ← u32.deserialize
      nseconds ← u32.deserialize
      pure (record { seconds = seconds; nseconds = nseconds }));
  }

  unfoldable pub fattr3_codec : Codec Fattr3
  fattr3_codec = record {
    serialize = λ v.
        ftype3_codec.serialize v.ftype
        ⨾ u32.serialize v.mode
        ⨾ u32.serialize v.nlink
        ⨾ u32.serialize v.uid
        ⨾ u32.serialize v.gid
        ⨾ u64.serialize v.size
        ⨾ u64.serialize v.used
        ⨾ specdata3_codec.serialize v.rdev
        ⨾ u64.serialize v.fsid
        ⨾ u64.serialize v.fileid
        ⨾ nfstime3_codec.serialize v.atime
        ⨾ nfstime3_codec.serialize v.mtime
        ⨾ nfstime3_codec.serialize v.ctime;
    deserialize = (do
      ftype ← ftype3_codec.deserialize
      mode ← u32.deserialize
      nlink ← u32.deserialize
      uid ← u32.deserialize
      gid ← u32.deserialize
      size ← u64.deserialize
      used ← u64.deserialize
      rdev ← specdata3_codec.deserialize
      fsid ← u64.deserialize
      fileid ← u64.deserialize
      atime ← nfstime3_codec.deserialize
      mtime ← nfstime3_codec.deserialize
      ctime ← nfstime3_codec.deserialize
      pure (record {
        ftype = ftype;
        mode = mode;
        nlink = nlink;
        uid = uid;
        gid = gid;
        size = size;
        used = used;
        rdev = rdev;
        fsid = fsid;
        fileid = fileid;
        atime = atime;
        mtime = mtime;
        ctime = ctime;
      }));
  }

  unfoldable pub wcc_attr_codec : Codec WccAttr
  wcc_attr_codec = record {
    serialize = λ v.
        u64.serialize v.size ⨾ nfstime3_codec.serialize v.mtime ⨾ nfstime3_codec.serialize v.ctime;
    deserialize = (do
      size ← u64.deserialize
      mtime ← nfstime3_codec.deserialize
      ctime ← nfstime3_codec.deserialize
      pure (record { size = size; mtime = mtime; ctime = ctime }));
  }

  unfoldable pub wcc_data_codec : Codec WccData
  wcc_data_codec = record {
    serialize =
        λ v. (option wcc_attr_codec).serialize v.before ⨾ (option fattr3_codec).serialize v.after;
    deserialize = (do
      before ← (option wcc_attr_codec).deserialize
      after ← (option fattr3_codec).deserialize
      pure (record { before = before; after = after }));
  }

  unfoldable pub serialize_set_atime : SetAtime → Writer
  serialize_set_atime SetAtime.dont_change = u32.serialize 0
  serialize_set_atime SetAtime.set_to_server_time = u32.serialize 1
  serialize_set_atime (SetAtime.set_to_client_time v) = u32.serialize 2 ⨾ nfstime3_codec.serialize v

  unfoldable pub set_atime_codec : Codec SetAtime
  set_atime_codec = record {
    serialize = serialize_set_atime;
    deserialize = (do
      c ← u32.deserialize
      if c == 0
          then pure SetAtime.dont_change
          else if c == 1
          then pure SetAtime.set_to_server_time
          else if c == 2
          then (do v ← nfstime3_codec.deserialize; pure (SetAtime.set_to_client_time v))
          else fail invalid_data);
  }

  unfoldable pub serialize_set_mtime : SetMtime → Writer
  serialize_set_mtime SetMtime.dont_change = u32.serialize 0
  serialize_set_mtime SetMtime.set_to_server_time = u32.serialize 1
  serialize_set_mtime (SetMtime.set_to_client_time v) = u32.serialize 2 ⨾ nfstime3_codec.serialize v

  unfoldable pub set_mtime_codec : Codec SetMtime
  set_mtime_codec = record {
    serialize = serialize_set_mtime;
    deserialize = (do
      c ← u32.deserialize
      if c == 0
          then pure SetMtime.dont_change
          else if c == 1
          then pure SetMtime.set_to_server_time
          else if c == 2
          then (do v ← nfstime3_codec.deserialize; pure (SetMtime.set_to_client_time v))
          else fail invalid_data);
  }

  unfoldable pub sattr3_codec : Codec Sattr3
  sattr3_codec = record {
    serialize = λ v.
        (option u32).serialize v.mode
        ⨾ (option u32).serialize v.uid
        ⨾ (option u32).serialize v.gid
        ⨾ (option u64).serialize v.size
        ⨾ set_atime_codec.serialize v.atime
        ⨾ set_mtime_codec.serialize v.mtime;
    deserialize = (do
      mode ← (option u32).deserialize
      uid ← (option u32).deserialize
      gid ← (option u32).deserialize
      size ← (option u64).deserialize
      atime ← set_atime_codec.deserialize
      mtime ← set_mtime_codec.deserialize
      pure (record {
        mode = mode;
        uid = uid;
        gid = gid;
        size = size;
        atime = atime;
        mtime = mtime;
      }));
  }
