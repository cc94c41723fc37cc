-- ===== src/Xdr/Nfs3/RoundTrip.antt =====
-- src/protocol/xdr/nfs3/mod.rs: file attributes, and requests to set them, are read back as they
-- were written.
use nfs_mamont_mirror.Prelude.{
  ℕ, ◌<◌, ◌^◌, refl, ◌++◌, append_assoc, length-append, arith, Option, none, some,
}
use nfs_mamont_mirror.Xdr.Reader.{Codec}
use nfs_mamont_mirror.Xdr.Order.{ByteOrder}
use nfs_mamont_mirror.Xdr.Basic.{u32, u64, option, find_variant}
use nfs_mamont_mirror.Xdr.RoundTrip.{
  RoundTrips, RoundTrips-via, RoundTrips-then, u32-RoundTrips, u64-RoundTrips, enum-RoundTrips,
}
use nfs_mamont_mirror.Xdr.RoundTrip.Composite.{option-RoundTrips-none, option-RoundTrips-some}
use nfs_mamont_mirror.Xdr.Rpc.Fields.{IsU32}
use nfs_mamont_mirror.Xdr.Nfs3.Enums.{
  NfsStat3, nfsstat3_codec, Ftype3, ftype3_codec, nfs3_ok, nf3_reg,
}
use nfs_mamont_mirror.Xdr.Nfs3.{
  Specdata3, NfsTime3, Fattr3, WccAttr, WccData, SetAtime, SetMtime, Sattr3, specdata3_codec,
  nfstime3_codec, fattr3_codec, wcc_attr_codec, wcc_data_codec, set_atime_codec, set_mtime_codec,
  sattr3_codec, serialize_set_atime, serialize_set_mtime,
}

abbrev pub IsU64 : ℕ → Type 0
IsU64 n = n < 2 ^ 64

abbrev pub Specdata3Fits : Specdata3 → Type 0
Specdata3Fits v = IsU32 v.specdata1 × IsU32 v.specdata2

abbrev pub NfsTime3Fits : NfsTime3 → Type 0
NfsTime3Fits v = IsU32 v.seconds × IsU32 v.nseconds

abbrev pub Fattr3Fits : Fattr3 → Type 0
Fattr3Fits v =
    IsU32 v.mode
    × IsU32 v.nlink
    × IsU32 v.uid
    × IsU32 v.gid
    × IsU64 v.size
    × IsU64 v.used
    × Specdata3Fits v.rdev
    × IsU64 v.fsid
    × IsU64 v.fileid
    × NfsTime3Fits v.atime
    × NfsTime3Fits v.mtime
    × NfsTime3Fits v.ctime

abbrev pub WccAttrFits : WccAttr → Type 0
WccAttrFits v = IsU64 v.size × NfsTime3Fits v.mtime × NfsTime3Fits v.ctime

abbrev pub OptionFits {ℓ} : {A : Type ℓ} → (A → Type 0) → Option A → Type 0
OptionFits P none = Unit
OptionFits P (some a) = P a

abbrev pub WccDataFits : WccData → Type 0
WccDataFits v = OptionFits WccAttrFits v.before × OptionFits Fattr3Fits v.after

abbrev pub SetAtimeFits : SetAtime → Type 0
SetAtimeFits (SetAtime.set_to_client_time v) = NfsTime3Fits v
SetAtimeFits _ = Unit

abbrev pub SetMtimeFits : SetMtime → Type 0
SetMtimeFits (SetMtime.set_to_client_time v) = NfsTime3Fits v
SetMtimeFits _ = Unit

abbrev pub Sattr3Fits : Sattr3 → Type 0
Sattr3Fits v =
    OptionFits IsU32 v.mode
    × OptionFits IsU32 v.uid
    × OptionFits IsU32 v.gid
    × OptionFits IsU64 v.size
    × SetAtimeFits v.atime
    × SetMtimeFits v.mtime

module _ ⦃order : ByteOrder⦄ where
  pub nfsstat3-RoundTrips : (v : NfsStat3) → RoundTrips nfsstat3_codec v
  unfolding nfsstat3_codec find_variant
  nfsstat3-RoundTrips nfs3_ok = enum-RoundTrips _ _ nfs3_ok (omega arith) refl
  nfsstat3-RoundTrips v = enum-RoundTrips _ _ v (omega arith) refl

  pub ftype3-RoundTrips : (v : Ftype3) → RoundTrips ftype3_codec v
  unfolding ftype3_codec find_variant
  ftype3-RoundTrips nf3_reg = enum-RoundTrips _ _ nf3_reg (omega arith) refl
  ftype3-RoundTrips v = enum-RoundTrips _ _ v (omega arith) refl

  pub specdata3-RoundTrips : (v : Specdata3) → Specdata3Fits v → RoundTrips specdata3_codec v
  unfolding specdata3_codec
  specdata3-RoundTrips v h =
      let specdata1 = u32-RoundTrips v.specdata1 h.0 in
      let specdata2 = u32-RoundTrips v.specdata2 h.1 in
      record {
        bytes = specdata1.bytes ++ specdata2.bytes;
        written = rw (specdata1.written, specdata2.written);
        aligned = grind (arith, length-append);
        reads = λ rest. simp (append_assoc, specdata1.reads, specdata2.reads);
      }

  pub nfstime3-RoundTrips : (v : NfsTime3) → NfsTime3Fits v → RoundTrips nfstime3_codec v
  unfolding nfstime3_codec
  nfstime3-RoundTrips v h =
      let seconds = u32-RoundTrips v.seconds h.0 in
      let nseconds = u32-RoundTrips v.nseconds h.1 in
      record {
        bytes = seconds.bytes ++ nseconds.bytes;
        written = rw (seconds.written, nseconds.written);
        aligned = grind (arith, length-append);
        reads = λ rest. simp (append_assoc, seconds.reads, nseconds.reads);
      }

  pub optional {ℓ} :
      {A : Type ℓ} (c : Codec A) (P : A → Type 0)
      → ((a : A) → P a → RoundTrips c a)
      → (v : Option A) → OptionFits P v
      → RoundTrips (option c) v
  optional c P each none h = option-RoundTrips-none c
  optional c P each (some a) h = option-RoundTrips-some c a (each a h)

  -- File attributes whose fields fit their words are read back, from the whole words of four bytes
  -- that are written for them, as they were, whatever follows.
  pub fattr3-RoundTrips : (v : Fattr3) → Fattr3Fits v → RoundTrips fattr3_codec v
  unfolding fattr3_codec
  fattr3-RoundTrips v h =
      let ftype = ftype3-RoundTrips v.ftype in
      let mode = u32-RoundTrips v.mode h.0 in
      let nlink = u32-RoundTrips v.nlink h.1 in
      let uid = u32-RoundTrips v.uid h.2 in
      let gid = u32-RoundTrips v.gid h.3 in
      let size = u64-RoundTrips v.size h.4 in
      let used = u64-RoundTrips v.used h.5 in
      let rdev = specdata3-RoundTrips v.rdev h.6 in
      let fsid = u64-RoundTrips v.fsid h.7 in
      let fileid = u64-RoundTrips v.fileid h.8 in
      let atime = nfstime3-RoundTrips v.atime h.9 in
      let mtime = nfstime3-RoundTrips v.mtime h.10 in
      let ctime = nfstime3-RoundTrips v.ctime h.11 in
      record {
        bytes =
            ftype.bytes
            ++ (mode.bytes
                ++ (nlink.bytes
                    ++ (uid.bytes
                        ++ (gid.bytes
                            ++ (size.bytes
                                ++ (used.bytes
                                    ++ (rdev.bytes
                                        ++ (fsid.bytes
                                            ++ (fileid.bytes
                                                ++ (atime.bytes
                                                    ++ (mtime.bytes ++ ctime.bytes)))))))))));
        written = rw (
          ftype.written, mode.written, nlink.written, uid.written, gid.written, size.written,
          used.written, rdev.written, fsid.written, fileid.written, atime.written, mtime.written,
          ctime.written,
        );
        aligned = grind (arith, length-append);
        reads = λ rest. simp (
          append_assoc, ftype.reads, mode.reads, nlink.reads, uid.reads, gid.reads, size.reads,
          used.reads, rdev.reads, fsid.reads, fileid.reads, atime.reads, mtime.reads, ctime.reads,
        );
      }

  pub wcc_attr-RoundTrips : (v : WccAttr) → WccAttrFits v → RoundTrips wcc_attr_codec v
  unfolding wcc_attr_codec
  wcc_attr-RoundTrips v h =
      let size = u64-RoundTrips v.size h.0 in
      let mtime = nfstime3-RoundTrips v.mtime h.1 in
      let ctime = nfstime3-RoundTrips v.ctime h.2 in
      record {
        bytes = size.bytes ++ (mtime.bytes ++ ctime.bytes);
        written = rw (size.written, mtime.written, ctime.written);
        aligned = grind (arith, length-append);
        reads = λ rest. simp (append_assoc, size.reads, mtime.reads, ctime.reads);
      }

  pub wcc_data-RoundTrips : (v : WccData) → WccDataFits v → RoundTrips wcc_data_codec v
  unfolding wcc_data_codec
  wcc_data-RoundTrips v h =
      let before = optional wcc_attr_codec _ wcc_attr-RoundTrips v.before h.0 in
      let after = optional fattr3_codec _ fattr3-RoundTrips v.after h.1 in
      record {
        bytes = before.bytes ++ after.bytes;
        written = rw (before.written, after.written);
        aligned = grind (arith, length-append);
        reads = λ rest. simp (append_assoc, before.reads, after.reads);
      }

  pub set_atime-RoundTrips : (v : SetAtime) → SetAtimeFits v → RoundTrips set_atime_codec v
  unfolding set_atime_codec serialize_set_atime
  set_atime-RoundTrips SetAtime.dont_change h =
      RoundTrips-via u32 set_atime_codec (u32-RoundTrips 0 (omega arith)) refl (λ src rest e. rw e)
  set_atime-RoundTrips SetAtime.set_to_server_time h =
      RoundTrips-via u32 set_atime_codec (u32-RoundTrips 1 (omega arith)) refl (λ src rest e. rw e)
  set_atime-RoundTrips (SetAtime.set_to_client_time v) h =
      RoundTrips-then u32 nfstime3_codec set_atime_codec (u32-RoundTrips 2 (omega arith))
        (nfstime3-RoundTrips v h) refl (λ src mid rest e f. rw (e, f))

  pub set_mtime-RoundTrips : (v : SetMtime) → SetMtimeFits v → RoundTrips set_mtime_codec v
  unfolding set_mtime_codec serialize_set_mtime
  set_mtime-RoundTrips SetMtime.dont_change h =
      RoundTrips-via u32 set_mtime_codec (u32-RoundTrips 0 (omega arith)) refl (λ src rest e. rw e)
  set_mtime-RoundTrips SetMtime.set_to_server_time h =
      RoundTrips-via u32 set_mtime_codec (u32-RoundTrips 1 (omega arith)) refl (λ src rest e. rw e)
  set_mtime-RoundTrips (SetMtime.set_to_client_time v) h =
      RoundTrips-then u32 nfstime3_codec set_mtime_codec (u32-RoundTrips 2 (omega arith))
        (nfstime3-RoundTrips v h) refl (λ src mid rest e f. rw (e, f))

  -- A request to set attributes whose fields fit their words is read back, from the whole words of
  -- four bytes that are written for it, as it was, whatever follows.
  pub sattr3-RoundTrips : (v : Sattr3) → Sattr3Fits v → RoundTrips sattr3_codec v
  unfolding sattr3_codec
  sattr3-RoundTrips v h =
      let mode = optional u32 _ u32-RoundTrips v.mode h.0 in
      let uid = optional u32 _ u32-RoundTrips v.uid h.1 in
      let gid = optional u32 _ u32-RoundTrips v.gid h.2 in
      let size = optional u64 _ u64-RoundTrips v.size h.3 in
      let atime = set_atime-RoundTrips v.atime h.4 in
      let mtime = set_mtime-RoundTrips v.mtime h.5 in
      record {
        bytes =
            mode.bytes
            ++ (uid.bytes ++ (gid.bytes ++ (size.bytes ++ (atime.bytes ++ mtime.bytes))));
        written =
            rw (mode.written, uid.written, gid.written, size.written, atime.written, mtime.written);
        aligned = grind (arith, length-append);
        reads = λ rest.
            simp (
              append_assoc, mode.reads, uid.reads, gid.reads, size.reads, atime.reads, mtime.reads,
            );
      }
