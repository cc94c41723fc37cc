-- ===== src/Portmap/Dispatch.antt =====
-- src/protocol/nfs/portmap/mod.rs: `handle_portmap` on every branch.
use nfs_mamont_mirror.Prelude.{
  ℕ, ◌≡◌, ◌==◌, ◌⊎◌, inl, inr, refl, Option, some, arith, Bool, true, false, Bool-cases,
}
use nfs_mamont_mirror.Prelude.Result.{err, Result-cases}
use nfs_mamont_mirror.Xdr.Reader.{Bytes, Error, Writer, ◌⨾◌, Writes, Writes-then}
use nfs_mamont_mirror.Xdr.Order.{ByteOrder}
use nfs_mamont_mirror.Xdr.Basic.{u32, bool}
use nfs_mamont_mirror.Xdr.Rpc.{
  CallBody, rpc_msg_codec, make_success_reply, prog_mismatch_reply_message,
  proc_unavail_reply_message,
}
use nfs_mamont_mirror.Xdr.Rpc.Fields.{IsU32}
use nfs_mamont_mirror.Xdr.Portmap.{
  Mapping, Next, nothing, just, entry, mapping_codec, serialize_next, PortmapProgram, version,
}
use nfs_mamont_mirror.Portmap.{
  PortmapTable, dump_list, serialize_dump, pmapproc_null, pmapproc_getport, pmapproc_setport,
  pmapproc_unsetport, pmapproc_dump, run_program, handle_portmap, with_args,
}
use nfs_mamont_mirror.Portmap.Procedures.{Replies, replies, replies_alone, success-RpcMsgFits}

module _ ⦃order : ByteOrder⦄ where
  bool-Writes : (b : Bool) → Writes (bool.serialize b)
  unfolding bool u32
  bool-Writes b = (_, refl)

  u32-Writes : (n : ℕ) → Writes (u32.serialize n)
  unfolding u32
  u32-Writes n = (_, refl)

  mapping-Writes : (m : Mapping) → Writes (mapping_codec.serialize m)
  unfolding mapping_codec
  mapping-Writes m =
      Writes-then (u32-Writes m.prog)
        (Writes-then (u32-Writes m.vers) (Writes-then (u32-Writes m.prot) (u32-Writes m.port)))

  next-Writes : (n : Next) → Writes (serialize_next n)
  unfolding serialize_next
  next-Writes nothing = bool-Writes false
  next-Writes (just (entry m n)) =
      Writes-then (bool-Writes true) (Writes-then (mapping-Writes m) (next-Writes n))

  dump-Writes : (n : Next) → Writes (serialize_dump n)
  dump-Writes nothing = u32-Writes 0
  dump-Writes (just p) = next-Writes (just p)

  -- A reply with the request's `xid`, or no reply and an unchanged table, because the arguments
  -- of a procedure that takes some do not decode.
  abbrev pub Handled : ℕ → Bytes → PortmapTable → Writer × PortmapTable → Type 0
  Handled xid input table out =
      Replies xid out.0
      ⊎ ((e : Error) × (mapping_codec.deserialize input ≡ err e) × (out ≡ (err e, table)))

  with_args-Handled :
      (xid : ℕ) (input : Bytes) (table : PortmapTable) (f : Mapping → Writer × PortmapTable)
      → ((m : Mapping) → Replies xid (f m).0)
      → Handled xid input table (with_args (mapping_codec.deserialize input) table f)
  with_args-Handled xid input table f h = elim (Result-cases (mapping_codec.deserialize input)) [
    | inl ((m, rest), e) ↦ inl (rw e (h m))
    | inr (x, e) ↦ inr (x, e, rw e)
  ]

  success-Replies :
      (xid : ℕ) (out : Writer)
      → IsU32 xid
      → Writes out
      → Replies xid (rpc_msg_codec.serialize (make_success_reply xid) ⨾ out)
  unfolding make_success_reply
  success-Replies xid out h (bs, e) =
      replies (make_success_reply xid) out (success-RpcMsgFits xid h) e

  run_program-Handled :
      (program : Option PortmapProgram) (xid : ℕ) (input : Bytes) (table : PortmapTable)
      → IsU32 xid
      → Handled xid input table (run_program program xid input table)
  unfolding pmapproc_null pmapproc_getport pmapproc_setport pmapproc_unsetport pmapproc_dump
      make_success_reply proc_unavail_reply_message
  run_program-Handled (some PortmapProgram.pmapproc_null) xid input table h =
      inl (replies_alone (make_success_reply xid) (success-RpcMsgFits xid h))
  run_program-Handled (some PortmapProgram.pmapproc_getport) xid input table h =
      with_args-Handled xid input table _ λ m. success-Replies xid _ h (u32-Writes _)
  run_program-Handled (some PortmapProgram.pmapproc_set) xid input table h =
      with_args-Handled xid input table _ λ m. success-Replies xid _ h (bool-Writes _)
  run_program-Handled (some PortmapProgram.pmapproc_unset) xid input table h =
      with_args-Handled xid input table _ λ m. success-Replies xid _ h (bool-Writes _)
  run_program-Handled (some PortmapProgram.pmapproc_dump) xid input table h =
      inl (success-Replies xid _ h (dump-Writes (dump_list table)))
  run_program-Handled _ xid input table h =
      inl (replies_alone (proc_unavail_reply_message xid) (omega arith))

  -- Whatever is called, the port mapper answers with the caller's `xid`; the one exception is a
  -- request whose arguments do not decode, which is not answered and leaves the table as it was.
  pub handle_portmap_replies :
      (xid : ℕ) (call : CallBody) (input : Bytes) (table : PortmapTable)
      → IsU32 xid
      → Handled xid input table (handle_portmap xid call input table)
  unfolding handle_portmap prog_mismatch_reply_message
  handle_portmap_replies xid call input table h = elim (Bool-cases (call.vers == version)) [
    | inl e ↦ rw e (run_program-Handled _ xid input table h)
    | inr e ↦ rw e (inl (replies_alone (prog_mismatch_reply_message xid version) (omega arith)))
  ]
