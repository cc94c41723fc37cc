-- ===== src/Xdr/Nfs3/Args.antt =====
-- src/protocol/xdr/nfs3/mod.rs: arguments that several procedures share.
pub mod RoundTrip
use nfs_mamont_mirror.Prelude.{ℕ, Option, List, [], ◌∷◌}
use nfs_mamont_mirror.Xdr.Reader.{Bytes, pure, ◌>>=◌, ◌⨾◌, Codec}
use nfs_mamont_mirror.Xdr.Order.{ByteOrder}
use nfs_mamont_mirror.Xdr.Basic.{enum, vec_u8, option}
use nfs_mamont_mirror.Xdr.Nfs3.{
  NfsFh3, NfsTime3, Sattr3, nfs_fh3_codec, nfstime3_codec, sattr3_codec,
}

pub data CreateMode3 : Type 0 where
  unchecked guarded exclusive : CreateMode3

abbrev pub createmode3_number : CreateMode3 → ℕ
createmode3_number unchecked = 0
createmode3_number guarded = 1
createmode3_number exclusive = 2

abbrev pub createmode3s : List CreateMode3
createmode3s = unchecked ∷ guarded ∷ exclusive ∷ []

pub record DirOpArgs3 : Type 0 where
  pub dir : NfsFh3
  pub name : Bytes

pub record SymlinkData3 : Type 0 where
  pub symlink_attributes : Sattr3
  pub symlink_data : Bytes

pub record Setattr3Args : Type 0 where
  pub object : NfsFh3
  pub new_attribute : Sattr3
  pub guard : Option NfsTime3

module _ ⦃order : ByteOrder⦄ where
  unfoldable pub createmode3_codec : Codec CreateMode3
  createmode3_codec = enum createmode3_number createmode3s

  unfoldable pub diropargs3_codec : Codec DirOpArgs3
  diropargs3_codec = record {
    serialize = λ v. nfs_fh3_codec.serialize v.dir ⨾ vec_u8.serialize v.name;
    deserialize = (do
      dir ← nfs_fh3_codec.deserialize
      name ← vec_u8.deserialize
      pure (record { dir = dir; name = name }));
  }

  unfoldable pub symlinkdata3_codec : Codec SymlinkData3
  symlinkdata3_codec = record {
    serialize = λ v. sattr3_codec.serialize v.symlink_attributes ⨾ vec_u8.serialize v.symlink_data;
    deserialize = (do
      symlink_attributes ← sattr3_codec.deserialize
      symlink_data ← vec_u8.deserialize
      pure (record { symlink_attributes = symlink_attributes; symlink_data = symlink_data }));
  }

  unfoldable pub setattr3_args_codec : Codec Setattr3Args
  setattr3_args_codec = record {
    serialize = λ v.
        nfs_fh3_codec.serialize v.object
        ⨾ sattr3_codec.serialize v.new_attribute
        ⨾ (option nfstime3_codec).serialize v.guard;
    deserialize = (do
      object ← nfs_fh3_codec.deserialize
      new_attribute ← sattr3_codec.deserialize
      guard ← (option nfstime3_codec).deserialize
      pure (record { object = object; new_attribute = new_attribute; guard = guard }));
  }
