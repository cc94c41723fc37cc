-- ===== src/Xdr/Nfs3/Args/RoundTrip.antt =====
-- src/protocol/xdr/nfs3/mod.rs: handles and arguments are read back as they were written.
use nfs_mamont_mirror.Prelude.{refl, ◌++◌, append_assoc, length, length-append, arith}
use nfs_mamont_mirror.Xdr.Order.{ByteOrder}
use nfs_mamont_mirror.Xdr.Basic.{vec_u8}
use nfs_mamont_mirror.Xdr.RoundTrip.{RoundTrips, RoundTrips-via, RoundTrips-then}
use nfs_mamont_mirror.Xdr.RoundTrip.Composite.{vec_u8-RoundTrips}
use nfs_mamont_mirror.Xdr.Rpc.Fields.{IsU32}
use nfs_mamont_mirror.Xdr.Nfs3.{NfsFh3, nfs_fh3_codec, nfstime3_codec}
use nfs_mamont_mirror.Xdr.Nfs3.RoundTrip.{
  NfsTime3Fits, OptionFits, Sattr3Fits, nfstime3-RoundTrips, optional, sattr3-RoundTrips,
}
use nfs_mamont_mirror.Xdr.Nfs3.Args.{
  DirOpArgs3, Setattr3Args, diropargs3_codec, setattr3_args_codec,
}

abbrev pub NfsFh3Fits : NfsFh3 → Type 0
NfsFh3Fits v = IsU32 (length v.bytes)

abbrev pub DirOpArgs3Fits : DirOpArgs3 → Type 0
DirOpArgs3Fits v = NfsFh3Fits v.dir × IsU32 (length v.name)

abbrev pub Setattr3ArgsFits : Setattr3Args → Type 0
Setattr3ArgsFits v =
    NfsFh3Fits v.object × Sattr3Fits v.new_attribute × OptionFits NfsTime3Fits v.guard

module _ ⦃order : ByteOrder⦄ where
  pub nfs_fh3-RoundTrips : (v : NfsFh3) → NfsFh3Fits v → RoundTrips nfs_fh3_codec v
  unfolding nfs_fh3_codec
  nfs_fh3-RoundTrips v h =
      RoundTrips-via vec_u8 nfs_fh3_codec (vec_u8-RoundTrips v.bytes h) refl (λ src rest e. rw e)

  pub diropargs3-RoundTrips : (v : DirOpArgs3) → DirOpArgs3Fits v → RoundTrips diropargs3_codec v
  unfolding diropargs3_codec
  diropargs3-RoundTrips v h =
      RoundTrips-then nfs_fh3_codec vec_u8 diropargs3_codec (nfs_fh3-RoundTrips v.dir h.0)
        (vec_u8-RoundTrips v.name h.1) refl (λ src mid rest e f. rw (e, f))

  -- The arguments of a SETATTR that fit their words are read back, from the whole words of four
  -- bytes that are written for them, as they were, whatever follows.
  pub setattr3_args-RoundTrips :
      (v : Setattr3Args) → Setattr3ArgsFits v → RoundTrips setattr3_args_codec v
  unfolding setattr3_args_codec
  setattr3_args-RoundTrips v h =
      let object = nfs_fh3-RoundTrips v.object h.0 in
      let attr = sattr3-RoundTrips v.new_attribute h.1 in
      let guard = optional nfstime3_codec _ nfstime3-RoundTrips v.guard h.2 in
      record {
        bytes = object.bytes ++ (attr.bytes ++ guard.bytes);
        written = rw (object.written, attr.written, guard.written);
        aligned = grind (arith, length-append);
        reads = λ rest. simp (append_assoc, object.reads, attr.reads, guard.reads);
      }
