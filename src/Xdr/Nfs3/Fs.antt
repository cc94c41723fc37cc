-- ===== src/Xdr/Nfs3/Fs.antt =====
-- src/protocol/xdr/nfs3/fs.rs: what FSINFO, FSSTAT and PATHCONF answer.
use nfs_mamont_mirror.Prelude.{ℕ, Bool, Option}
use nfs_mamont_mirror.Xdr.Reader.{pure, ◌>>=◌, ◌⨾◌, Codec}
use nfs_mamont_mirror.Xdr.Order.{ByteOrder}
use nfs_mamont_mirror.Xdr.Basic.{u32, u64, bool, option}
use nfs_mamont_mirror.Xdr.Nfs3.{NfsTime3, Fattr3, nfstime3_codec, fattr3_codec}

abbrev pub fsf_link : ℕ
fsf_link = 1

abbrev pub fsf_symlink : ℕ
fsf_symlink = 2

abbrev pub fsf_homogeneous : ℕ
fsf_homogeneous = 8

abbrev pub fsf_cansettime : ℕ
fsf_cansettime = 16

pub record Fsinfo3 : Type 0 where
  pub obj_attributes : Option Fattr3
  pub rtmax : ℕ
  pub rtpref : ℕ
  pub rtmult : ℕ
  pub wtmax : ℕ
  pub wtpref : ℕ
  pub wtmult : ℕ
  pub dtpref : ℕ
  pub maxfilesize : ℕ
  pub time_delta : NfsTime3
  pub properties : ℕ

pub record Fsstat3ResOk : Type 0 where
  pub obj_attributes : Option Fattr3
  pub tbytes : ℕ
  pub fbytes : ℕ
  pub abytes : ℕ
  pub tfiles : ℕ
  pub ffiles : ℕ
  pub afiles : ℕ
  pub invarsec : ℕ

pub record Pathconf3ResOk : Type 0 where
  pub obj_attributes : Option Fattr3
  pub linkmax : ℕ
  pub name_max : ℕ
  pub no_trunc : Bool
  pub chown_restricted : Bool
  pub case_insensitive : Bool
  pub case_preserving : Bool

module _ ⦃order : ByteOrder⦄ where
  unfoldable pub fsinfo3_codec : Codec Fsinfo3
  fsinfo3_codec = record {
    serialize = λ v.
        (option fattr3_codec).serialize v.obj_attributes
        ⨾ u32.serialize v.rtmax
        ⨾ u32.serialize v.rtpref
        ⨾ u32.serialize v.rtmult
        ⨾ u32.serialize v.wtmax
        ⨾ u32.serialize v.wtpref
        ⨾ u32.serialize v.wtmult
        ⨾ u32.serialize v.dtpref
        ⨾ u64.serialize v.maxfilesize
        ⨾ nfstime3_codec.serialize v.time_delta
        ⨾ u32.serialize v.properties;
    deserialize = (do
      obj_attributes ← (option fattr3_codec).deserialize
      rtmax ← u32.deserialize
      rtpref ← u32.deserialize
      rtmult ← u32.deserialize
      wtmax ← u32.deserialize
      wtpref ← u32.deserialize
      wtmult ← u32.deserialize
      dtpref ← u32.deserialize
      maxfilesize ← u64.deserialize
      time_delta ← nfstime3_codec.deserialize
      properties ← u32.deserialize
      pure (record {
        obj_attributes = obj_attributes;
        rtmax = rtmax;
        rtpref = rtpref;
        rtmult = rtmult;
        wtmax = wtmax;
        wtpref = wtpref;
        wtmult = wtmult;
        dtpref = dtpref;
        maxfilesize = maxfilesize;
        time_delta = time_delta;
        properties = properties;
      }));
  }

  unfoldable pub fsstat3_resok_codec : Codec Fsstat3ResOk
  fsstat3_resok_codec = record {
    serialize = λ v.
        (option fattr3_codec).serialize v.obj_attributes
        ⨾ u64.serialize v.tbytes
        ⨾ u64.serialize v.fbytes
        ⨾ u64.serialize v.abytes
        ⨾ u64.serialize v.tfiles
        ⨾ u64.serialize v.ffiles
        ⨾ u64.serialize v.afiles
        ⨾ u32.serialize v.invarsec;
    deserialize = (do
      obj_attributes ← (option fattr3_codec).deserialize
      tbytes ← u64.deserialize
      fbytes ← u64.deserialize
      abytes ← u64.deserialize
      tfiles ← u64.deserialize
      ffiles ← u64.deserialize
      afiles ← u64.deserialize
      invarsec ← u32.deserialize
      pure (record {
        obj_attributes = obj_attributes;
        tbytes = tbytes;
        fbytes = fbytes;
        abytes = abytes;
        tfiles = tfiles;
        ffiles = ffiles;
        afiles = afiles;
        invarsec = invarsec;
      }));
  }

  unfoldable pub pathconf3_resok_codec : Codec Pathconf3ResOk
  pathconf3_resok_codec = record {
    serialize = λ v.
        (option fattr3_codec).serialize v.obj_attributes
        ⨾ u32.serialize v.linkmax
        ⨾ u32.serialize v.name_max
        ⨾ bool.serialize v.no_trunc
        ⨾ bool.serialize v.chown_restricted
        ⨾ bool.serialize v.case_insensitive
        ⨾ bool.serialize v.case_preserving;
    deserialize = (do
      obj_attributes ← (option fattr3_codec).deserialize
      linkmax ← u32.deserialize
      name_max ← u32.deserialize
      no_trunc ← bool.deserialize
      chown_restricted ← bool.deserialize
      case_insensitive ← bool.deserialize
      case_preserving ← bool.deserialize
      pure (record {
        obj_attributes = obj_attributes;
        linkmax = linkmax;
        name_max = name_max;
        no_trunc = no_trunc;
        chown_restricted = chown_restricted;
        case_insensitive = case_insensitive;
        case_preserving = case_preserving;
      }));
  }
