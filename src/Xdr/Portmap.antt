-- ===== src/Xdr/Portmap.antt =====
-- src/protocol/xdr/portmap.rs: the messages of the port mapper.
pub mod RoundTrip
use nfs_mamont_mirror.Prelude.{
  ℕ, zero, suc, Bool, true, false, Option, none, some, List, [], ◌∷◌, length, if◌then◌else◌,
}
use nfs_mamont_mirror.Prelude.Result.{Result, ok, err}
use nfs_mamont_mirror.Xdr.Reader.{
  Bytes, Error, unexpected_eof, Reader, pure, ◌>>=◌, Writer, ◌⨾◌, Codec,
}
use nfs_mamont_mirror.Xdr.Order.{ByteOrder}
use nfs_mamont_mirror.Xdr.Basic.{u32, bool}

pub record Mapping : Type 0 where
  pub prog : ℕ
  pub vers : ℕ
  pub prot : ℕ
  pub port : ℕ

-- `pmaplist`, and its field `next`, which is a `Box<Option<pmaplist>>`.
mutual
  pub data Pmaplist : Type 0 where
    entry : Mapping → Next → Pmaplist

  pub data Next : Type 0 where
    nothing : Next
    just : Pmaplist → Next

abbrev pub ipproto_tcp : ℕ
ipproto_tcp = 6

abbrev pub ipproto_udp : ℕ
ipproto_udp = 17

abbrev pub program : ℕ
program = 100000

abbrev pub version : ℕ
version = 2

pub data PortmapProgram : Type 0 where
  pmapproc_null pmapproc_set pmapproc_unset pmapproc_getport pmapproc_dump pmapproc_callit invalid :
      PortmapProgram

abbrev pub portmap_program_number : PortmapProgram → ℕ
portmap_program_number pmapproc_null = 0
portmap_program_number pmapproc_set = 1
portmap_program_number pmapproc_unset = 2
portmap_program_number pmapproc_getport = 3
portmap_program_number pmapproc_dump = 4
portmap_program_number pmapproc_callit = 5
portmap_program_number invalid = 6

abbrev pub portmap_programs : List PortmapProgram
portmap_programs =
    pmapproc_null ∷ pmapproc_set ∷ pmapproc_unset ∷ pmapproc_getport ∷ pmapproc_dump
    ∷ pmapproc_callit ∷ invalid ∷ []

module _ ⦃order : ByteOrder⦄ where
  unfoldable pub mapping_codec : Codec Mapping
  mapping_codec = record {
    serialize = λ v.
        u32.serialize v.prog ⨾ u32.serialize v.vers ⨾ u32.serialize v.prot ⨾ u32.serialize v.port;
    deserialize = (do
      prog ← u32.deserialize
      vers ← u32.deserialize
      prot ← u32.deserialize
      port ← u32.deserialize
      pure (record { prog = prog; vers = vers; prot = prot; port = port }));
  }

  -- `Serialize for Option<pmaplist>` writes the presence of `next` as a `bool`.
  unfoldable mutual
    pub serialize_pmaplist : Pmaplist → Writer
    serialize_pmaplist (entry m n) = mapping_codec.serialize m ⨾ serialize_next n

    pub serialize_next : Next → Writer
    serialize_next nothing = bool.serialize false
    serialize_next (just p) = bool.serialize true ⨾ serialize_pmaplist p

  -- Each entry takes bytes off the input, so the length of the input is fuel enough; with none
  -- left the input is at its end, as `unexpected_eof` says.
  unfoldable pub deserialize_pmaplist_fuel : ℕ → Reader Pmaplist
  deserialize_pmaplist_fuel zero src = err unexpected_eof
  deserialize_pmaplist_fuel (suc fuel) src =
      (do
        m ← mapping_codec.deserialize
        has_next ← bool.deserialize
        if has_next
            then (do p ← deserialize_pmaplist_fuel fuel; pure (entry m (just p)))
            else pure (entry m nothing))
        src

  unfoldable pub pmaplist_codec : Codec Pmaplist
  pmaplist_codec = record {
    serialize = serialize_pmaplist;
    deserialize = λ src. deserialize_pmaplist_fuel (suc (length src)) src;
  }
