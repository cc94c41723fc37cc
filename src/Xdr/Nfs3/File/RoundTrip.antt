-- ===== src/Xdr/Nfs3/File/RoundTrip.antt =====
-- src/protocol/xdr/nfs3/file.rs: the arguments of WRITE are read back as they were written.
use nfs_mamont_mirror.Prelude.{◌++◌, append_assoc, length, length-append, arith}
use nfs_mamont_mirror.Xdr.Order.{ByteOrder}
use nfs_mamont_mirror.Xdr.RoundTrip.{RoundTrips, u32-RoundTrips, u64-RoundTrips}
use nfs_mamont_mirror.Xdr.RoundTrip.Composite.{vec_u8-RoundTrips}
use nfs_mamont_mirror.Xdr.Rpc.Fields.{IsU32}
use nfs_mamont_mirror.Xdr.Nfs3.RoundTrip.{IsU64}
use nfs_mamont_mirror.Xdr.Nfs3.Args.RoundTrip.{NfsFh3Fits, nfs_fh3-RoundTrips}
use nfs_mamont_mirror.Xdr.Nfs3.File.{Write3Args, write3_args_codec}

abbrev pub Write3ArgsFits : Write3Args → Type 0
Write3ArgsFits v =
    NfsFh3Fits v.file × IsU64 v.offset × IsU32 v.count × IsU32 v.stable × IsU32 (length v.bytes)

module _ ⦃order : ByteOrder⦄ where
  -- The arguments of a WRITE that fit their words are read back, from the whole words of four
  -- bytes that are written for them, as they were, whatever follows.
  pub write3_args-RoundTrips : (v : Write3Args) → Write3ArgsFits v → RoundTrips write3_args_codec v
  unfolding write3_args_codec
  write3_args-RoundTrips v h =
      let file = nfs_fh3-RoundTrips v.file h.0 in
      let offset = u64-RoundTrips v.offset h.1 in
      let count = u32-RoundTrips v.count h.2 in
      let stable = u32-RoundTrips v.stable h.3 in
      let data_bytes = vec_u8-RoundTrips v.bytes h.4 in
      record {
        bytes = file.bytes ++ (offset.bytes ++ (count.bytes ++ (stable.bytes ++ data_bytes.bytes)));
        written =
            rw (file.written, offset.written, count.written, stable.written, data_bytes.written);
        aligned = grind (arith, length-append);
        reads = λ rest.
            simp
              (append_assoc, file.reads, offset.reads, count.reads, stable.reads, data_bytes.reads);
      }
