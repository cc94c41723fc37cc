-- ===== src/Xdr/Nfs3/File.antt =====
-- src/protocol/xdr/nfs3/file.rs: READ, WRITE, COMMIT and LINK.
pub mod RoundTrip
use nfs_mamont_mirror.Prelude.{ℕ, Bool, Option, List, [], ◌∷◌}
use nfs_mamont_mirror.Xdr.Reader.{Bytes, pure, ◌>>=◌, ◌⨾◌, Codec}
use nfs_mamont_mirror.Xdr.Order.{ByteOrder}
use nfs_mamont_mirror.Xdr.Basic.{u32, u64, bool, enum, opaque, vec_u8, option}
use nfs_mamont_mirror.Xdr.Nfs3.{
  NfsFh3, Fattr3, WccData, nfs_fh3_codec, fattr3_codec, wcc_data_codec,
}
use nfs_mamont_mirror.Xdr.Nfs3.Args.{DirOpArgs3, diropargs3_codec}

pub data StableHow : Type 0 where
  unstable data_sync file_sync : StableHow

abbrev pub stable_how_number : StableHow → ℕ
stable_how_number unstable = 0
stable_how_number data_sync = 1
stable_how_number file_sync = 2

abbrev pub stable_hows : List StableHow
stable_hows = unstable ∷ data_sync ∷ file_sync ∷ []

pub record Read3Args : Type 0 where
  pub file : NfsFh3
  pub offset : ℕ
  pub count : ℕ

pub record Read3ResOk : Type 0 where
  pub file_attributes : Option Fattr3
  pub count : ℕ
  pub eof : Bool
  pub bytes : Bytes

pub record Commit3Args : Type 0 where
  pub file : NfsFh3
  pub offset : ℕ
  pub count : ℕ

pub record Commit3ResOk : Type 0 where
  pub file_wcc : WccData
  pub verf : Bytes

pub record Link3Args : Type 0 where
  pub file : NfsFh3
  pub link : DirOpArgs3

pub record Write3Args : Type 0 where
  pub file : NfsFh3
  pub offset : ℕ
  pub count : ℕ
  pub stable : ℕ
  pub bytes : Bytes

pub record Write3ResOk : Type 0 where
  pub file_wcc : WccData
  pub count : ℕ
  pub committed : StableHow
  pub verf : Bytes

module _ ⦃order : ByteOrder⦄ where
  unfoldable pub stable_how_codec : Codec StableHow
  stable_how_codec = enum stable_how_number stable_hows

  unfoldable pub read3_args_codec : Codec Read3Args
  read3_args_codec = record {
    serialize =
        λ v. nfs_fh3_codec.serialize v.file ⨾ u64.serialize v.offset ⨾ u32.serialize v.count;
    deserialize = (do
      file ← nfs_fh3_codec.deserialize
      offset ← u64.deserialize
      count ← u32.deserialize
      pure (record { file = file; offset = offset; count = count }));
  }

  unfoldable pub read3_resok_codec : Codec Read3ResOk
  read3_resok_codec = record {
    serialize = λ v.
        (option fattr3_codec).serialize v.file_attributes
        ⨾ u32.serialize v.count
        ⨾ bool.serialize v.eof
        ⨾ vec_u8.serialize v.bytes;
    deserialize = (do
      file_attributes ← (option fattr3_codec).deserialize
      count ← u32.deserialize
      eof ← bool.deserialize
      bytes ← vec_u8.deserialize
      pure (record { file_attributes = file_attributes; count = count; eof = eof; bytes = bytes }));
  }

  unfoldable pub commit3_args_codec : Codec Commit3Args
  commit3_args_codec = record {
    serialize =
        λ v. nfs_fh3_codec.serialize v.file ⨾ u64.serialize v.offset ⨾ u32.serialize v.count;
    deserialize = (do
      file ← nfs_fh3_codec.deserialize
      offset ← u64.deserialize
      count ← u32.deserialize
      pure (record { file = file; offset = offset; count = count }));
  }

  unfoldable pub commit3_resok_codec : Codec Commit3ResOk
  commit3_resok_codec = record {
    serialize = λ v. wcc_data_codec.serialize v.file_wcc ⨾ (opaque 8).serialize v.verf;
    deserialize = (do
      file_wcc ← wcc_data_codec.deserialize
      verf ← (opaque 8).deserialize
      pure (record { file_wcc = file_wcc; verf = verf }));
  }

  unfoldable pub link3_args_codec : Codec Link3Args
  link3_args_codec = record {
    serialize = λ v. nfs_fh3_codec.serialize v.file ⨾ diropargs3_codec.serialize v.link;
    deserialize = (do
      file ← nfs_fh3_codec.deserialize
      link ← diropargs3_codec.deserialize
      pure (record { file = file; link = link }));
  }

  unfoldable pub write3_args_codec : Codec Write3Args
  write3_args_codec = record {
    serialize = λ v.
        nfs_fh3_codec.serialize v.file
        ⨾ u64.serialize v.offset
        ⨾ u32.serialize v.count
        ⨾ u32.serialize v.stable
        ⨾ vec_u8.serialize v.bytes;
    deserialize = (do
      file ← nfs_fh3_codec.deserialize
      offset ← u64.deserialize
      count ← u32.deserialize
      stable ← u32.deserialize
      bytes ← vec_u8.deserialize
      pure
          (record { file = file; offset = offset; count = count; stable = stable; bytes = bytes }));
  }

  unfoldable pub write3_resok_codec : Codec Write3ResOk
  write3_resok_codec = record {
    serialize = λ v.
        wcc_data_codec.serialize v.file_wcc
        ⨾ u32.serialize v.count
        ⨾ stable_how_codec.serialize v.committed
        ⨾ (opaque 8).serialize v.verf;
    deserialize = (do
      file_wcc ← wcc_data_codec.deserialize
      count ← u32.deserialize
      committed ← stable_how_codec.deserialize
      verf ← (opaque 8).deserialize
      pure (record { file_wcc = file_wcc; count = count; committed = committed; verf = verf }));
  }
