-- ===== src/Xdr/Portmap/RoundTrip.antt =====
-- src/protocol/xdr/portmap.rs: mappings and lists of mappings are read back as they were written.
use nfs_mamont_mirror.Prelude.{
  ℕ, zero, suc, ◌%◌, ◌≤◌, ◌<◌, ◌≡◌, true, false, ◌++◌, append_assoc, length, length-append, arith,
  Bool, [], ◌∷◌,
}
use nfs_mamont_mirror.Prelude.Result.{ok}
use nfs_mamont_mirror.Xdr.Reader.{Bytes, read_exact}
use nfs_mamont_mirror.Xdr.Order.{ByteOrder}
use nfs_mamont_mirror.Xdr.RoundTrip.{RoundTrips, u32-RoundTrips, bool-RoundTrips}
use nfs_mamont_mirror.Xdr.Rpc.Fields.{IsU32}
use nfs_mamont_mirror.Xdr.Portmap.{
  Mapping, Pmaplist, entry, Next, nothing, just, mapping_codec, serialize_pmaplist,
  deserialize_pmaplist_fuel, pmaplist_codec,
}
use nfs_mamont_mirror.Xdr.Basic.{bool, u32}

abbrev pub MappingFits : Mapping → Type 0
MappingFits v = IsU32 v.prog × IsU32 v.vers × IsU32 v.prot × IsU32 v.port

abbrev mutual
  pub PmaplistFits : Pmaplist → Type 0
  PmaplistFits (entry m n) = MappingFits m × NextFits n

  pub NextFits : Next → Type 0
  NextFits nothing = Unit
  NextFits (just p) = PmaplistFits p

abbrev entries : Pmaplist → ℕ
entries (entry m nothing) = 1
entries (entry m (just p)) = suc (entries p)

module _ ⦃order : ByteOrder⦄ where
  -- A mapping of four 32-bit words is read back as it was written.
  pub mapping-RoundTrips : (v : Mapping) → MappingFits v → RoundTrips mapping_codec v
  unfolding mapping_codec
  mapping-RoundTrips v h =
      let prog = u32-RoundTrips v.prog h.0 in
      let vers = u32-RoundTrips v.vers h.1 in
      let prot = u32-RoundTrips v.prot h.2 in
      let port = u32-RoundTrips v.port h.3 in
      record {
        bytes = prog.bytes ++ (vers.bytes ++ (prot.bytes ++ port.bytes));
        written = rw (prog.written, vers.written, prot.written, port.written);
        aligned = grind (arith, length-append);
        reads = λ rest. simp (append_assoc, prog.reads, vers.reads, prot.reads, port.reads);
      }

  bool_bytes_pos : (b : Bool) (w : RoundTrips bool b) → 0 < length w.bytes
  bool_bytes_pos b w = go w.bytes (w.reads [])
    where
      go : (bytes : Bytes) → bool.deserialize (bytes ++ []) ≡ ok (b, []) → 0 < length bytes
      go [] e = unfold bool u32 read_exact in cc e
      go (x ∷ xs) e = omega arith

  -- What a list writes, with the fuel that reads it back.
  record Listed (p : Pmaplist) : Type 0 where
    bytes : Bytes
    written : serialize_pmaplist p ≡ ok bytes
    aligned : length bytes % 4 ≡ 0
    long : entries p ≤ length bytes
    reads :
        (fuel : ℕ) (rest : Bytes)
        → entries p ≤ fuel
        → deserialize_pmaplist_fuel fuel (bytes ++ rest) ≡ ok (p, rest)

  read_last :
      (m : Mapping) (w : RoundTrips mapping_codec m) (b : RoundTrips bool false) (fuel : ℕ)
      (rest : Bytes)
      → 1 ≤ fuel
      → deserialize_pmaplist_fuel fuel ((w.bytes ++ b.bytes) ++ rest) ≡ ok (entry m nothing, rest)
  unfolding deserialize_pmaplist_fuel
  read_last m w b zero rest k = absurd (omega arith)
  read_last m w b (suc fuel) rest k = rw (append_assoc, w.reads, b.reads)

  read_more :
      (m : Mapping) (w : RoundTrips mapping_codec m) (b : RoundTrips bool true) (p : Pmaplist)
      (l : Listed p) (fuel : ℕ) (rest : Bytes)
      → suc (entries p) ≤ fuel
      → deserialize_pmaplist_fuel fuel ((w.bytes ++ (b.bytes ++ l.bytes)) ++ rest)
        ≡ ok (entry m (just p), rest)
  unfolding deserialize_pmaplist_fuel
  read_more m w b p l zero rest k = absurd (omega arith)
  read_more m w b p l (suc fuel) rest k =
      simp (append_assoc, w.reads, b.reads, l.reads fuel rest (omega arith))

  listed : (p : Pmaplist) → PmaplistFits p → Listed p
  unfolding serialize_pmaplist
  listed (entry m nothing) h =
      let w = mapping-RoundTrips m h.0 in
      let b = bool-RoundTrips false in
      record {
        bytes = w.bytes ++ b.bytes;
        written = rw (w.written, b.written);
        aligned = grind (arith, length-append);
        long = omega (arith, length-append w.bytes b.bytes, bool_bytes_pos false b);
        reads = read_last m w b;
      }
  listed (entry m (just p)) h =
      let w = mapping-RoundTrips m h.0 in
      let b = bool-RoundTrips true in
      let l = listed p h.1 in
      record {
        bytes = w.bytes ++ (b.bytes ++ l.bytes);
        written = rw (w.written, b.written, l.written);
        aligned = grind (arith, length-append, l.aligned);
        long = omega (
          arith,
          length-append w.bytes (b.bytes ++ l.bytes),
          length-append b.bytes l.bytes,
          bool_bytes_pos true b,
          l.long,
        );
        reads = read_more m w b p l;
      }

  -- A list of mappings, as DUMP answers it, is read back as it was written; the fuel is enough.
  pub pmaplist-RoundTrips : (p : Pmaplist) → PmaplistFits p → RoundTrips pmaplist_codec p
  unfolding pmaplist_codec
  pmaplist-RoundTrips p h =
      let l = listed p h in
      record {
        bytes = l.bytes;
        written = l.written;
        aligned = l.aligned;
        reads = λ rest.
            l.reads (suc (length (l.bytes ++ rest))) rest
              (omega (arith, l.long, length-append l.bytes rest));
      }
