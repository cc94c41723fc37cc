-- ===== src/Portmap/Dump.antt =====
-- src/protocol/nfs/portmap/dump.rs: what a client reads in the answer to DUMP.
use nfs_mamont_mirror.Prelude.{
  All, arith, length-append, ℕ, ◌≡◌, true, false, refl, List, [], ◌∷◌, ◌++◌, map, reverse,
  append_assoc, if◌then◌else◌,
}
use mathlib.Core.List.{reverse-cons, foldl-append}
use nfs_mamont_mirror.Xdr.Reader.{Codec, pure, ◌>>=◌}
use nfs_mamont_mirror.Xdr.Order.{ByteOrder}
use nfs_mamont_mirror.Xdr.Basic.{bool}
use nfs_mamont_mirror.Xdr.RoundTrip.{RoundTrips, bool-RoundTrips}
use nfs_mamont_mirror.Xdr.Rpc.{make_success_reply}
use nfs_mamont_mirror.Xdr.Rpc.Fields.{IsU32}
use nfs_mamont_mirror.Xdr.Portmap.{
  Mapping, entry, Next, nothing, just, serialize_next, pmaplist_codec,
}
use nfs_mamont_mirror.Xdr.Portmap.RoundTrip.{MappingFits, NextFits, pmaplist-RoundTrips}
use nfs_mamont_mirror.Portmap.{
  PortmapKey, PortmapTable, to_mapping, pushed, dump_list, serialize_dump, pmapproc_dump,
}
use nfs_mamont_mirror.Portmap.Procedures.{Answers, answers, success-RpcMsgFits}

-- The mappings of a list, from its head on.
abbrev pub mappings : Next → List Mapping
mappings nothing = []
mappings (just (entry m n)) = m ∷ mappings n

dump_list_cons :
    (e : PortmapKey × ℕ) (t : PortmapTable)
    → dump_list (e ∷ t) ≡ just (entry (to_mapping e) (dump_list t))
unfolding dump_list
dump_list_cons e t =
    rw (reverse-cons, foldl-append pushed nothing (reverse (map to_mapping t)) (to_mapping e ∷ []))
      refl

mappings-dump_list : (t : PortmapTable) → mappings (dump_list t) ≡ map to_mapping t
mappings-dump_list [] = unfold dump_list in refl
mappings-dump_list (e ∷ t) = rw (dump_list_cons e t, mappings-dump_list t) refl

-- The entry fits the words of a mapping.
abbrev pub EntryFits : PortmapKey × ℕ → Type 0
EntryFits e = MappingFits (to_mapping e)

dump_list-NextFits : (t : PortmapTable) → All EntryFits t → NextFits (dump_list t)
dump_list-NextFits [] h = unfold dump_list in tt
dump_list-NextFits (e ∷ t) h = rw (dump_list_cons e t) (h.0, dump_list-NextFits t h.1)

module _ ⦃order : ByteOrder⦄ where
  -- How a client reads the result of DUMP: as an optional list.
  abbrev pub next_codec : Codec Next
  next_codec = record {
    serialize = serialize_next;
    deserialize = (do
      present ← bool.deserialize
      if present then (do p ← pmaplist_codec.deserialize; pure (just p)) else pure nothing);
  }

  next-RoundTrips : (n : Next) → NextFits n → RoundTrips next_codec n
  unfolding serialize_next pmaplist_codec
  next-RoundTrips nothing h =
      let b = bool-RoundTrips false in
      record {
        bytes = b.bytes;
        written = b.written;
        aligned = b.aligned;
        reads = λ rest. rw b.reads refl;
      }
  next-RoundTrips (just p) h =
      let b = bool-RoundTrips true in
      let l = pmaplist-RoundTrips p h in
      record {
        bytes = b.bytes ++ l.bytes;
        written = rw (b.written, l.written) refl;
        aligned = grind (arith, length-append, b.aligned, l.aligned);
        reads = λ rest. simp (append_assoc, b.reads, l.reads);
      }

  serialize_dump-next : (n : Next) → serialize_dump n ≡ serialize_next n
  unfolding serialize_next bool
  serialize_dump-next nothing = refl
  serialize_dump-next (just p) = refl

  -- DUMP, on a table whose entries fit their words, answers a success and leaves the table as it
  -- is; after the header a client reads an optional list and nothing more, and the mappings of the
  -- list are the entries of the table, each as often as it is there and in the table's order.
  pub pmapproc_dump_read :
      (xid : ℕ) (table : PortmapTable)
      → IsU32 xid
      → All EntryFits table
      → Answers next_codec (make_success_reply xid) (dump_list table) (pmapproc_dump xid table).0
        × ((pmapproc_dump xid table).1 ≡ table)
        × (mappings (dump_list table) ≡ map to_mapping table)
  unfolding pmapproc_dump
  pmapproc_dump_read xid table h fit = (
    rw (serialize_dump-next (dump_list table)) (
        answers next_codec (make_success_reply xid) (dump_list table) (success-RpcMsgFits xid h)
          (next-RoundTrips (dump_list table) (dump_list-NextFits table fit))),
    refl,
    mappings-dump_list table,
  )
